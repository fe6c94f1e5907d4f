-- ===== src/Eosfs/Examples.antt =====
-- The listing on concrete inputs.
use existent_os.Prelude.{refl, true, [], ◌∷◌, some, arith, replicate}
use existent_os.Prelude.Int.{pos}
use existent_os.Firmware.OneFile.{one_file}
use existent_os.Eosfs.{Entry, Partition, Place, loaded, blank_entry, blank_partition, init}
use existent_os.Eosfs.Reading.{list_path}
use existent_os.Eosfs.Table.{IsSized, Tables, init-Tables, built_in, built_in_partitions}
use existent_os.Eosfs.Disk.{IsListed, list_path-IsListed}

loaded-IsSized : IsSized loaded
loaded-IsSized = record {
  entries_size = refl;
  entries_cells = ground arith;
  partitions_size = refl;
  partitions_cells = ground arith;
}

abbrev room_for_three : Place Entry
room_for_three = record { cells = replicate 3 blank_entry; count = pos 0 }

abbrev room_for_four : Place Partition
room_for_four = record { cells = replicate 4 blank_partition; count = pos 0 }

init-Tables_example : Tables (init loaded) built_in built_in_partitions
init-Tables_example = init-Tables loaded-IsSized

list_path-IsListed_example :
    IsListed one_file 2 room_for_three
      (list_path one_file true [] (some room_for_three) (pos 2) loaded (some (1 ∷ 2 ∷ [])))
list_path-IsListed_example =
    list_path-IsListed one_file true [] room_for_three 2 loaded (some (1 ∷ 2 ∷ [])) (omega arith)
      (ground arith) (ground arith)
