-- ===== src/Layout.antt =====
-- Where the compiler puts the members of the structs that the sources share with the firmware, the
-- processor and the files: the rules of the x86-64 ABI, and what a member's bytes stand for. The
-- structs themselves are in the children.
pub mod Protocols
pub mod Records
pub mod Tables
pub mod Shared
pub mod Readers
pub mod Stores
mod Examples
use Prim.Native.String.{String}
use text.Mathlib.Text.{◌==◌ as str_eq}
use existent_os.Prelude.{
  ℕ, zero, suc, ◌+◌, ◌*◌, ◌/◌, ◌^◌, List, [], ◌∷◌, Option, none, some, if◌then◌else◌, get_or, drop,
}

pub data Width : Type 0 where
  w8 w16 w32 w64 : Width

abbrev pub bytes : Width → ℕ
bytes Width.w8 = 1
bytes Width.w16 = 2
bytes Width.w32 = 4
bytes Width.w64 = 8

abbrev pub wider : Width → Width → Width
wider Width.w8 v = v
wider Width.w16 Width.w8 = Width.w16
wider Width.w16 Width.w16 = Width.w16
wider Width.w16 Width.w32 = Width.w32
wider Width.w16 Width.w64 = Width.w64
wider Width.w32 Width.w8 = Width.w32
wider Width.w32 Width.w16 = Width.w32
wider Width.w32 Width.w32 = Width.w32
wider Width.w32 Width.w64 = Width.w64
wider Width.w64 v = Width.w64

-- The next multiple of the width.
abbrev pub round_up : ℕ → Width → ℕ
round_up n Width.w8 = n
round_up n Width.w16 = (n + 1) / 2 * 2
round_up n Width.w32 = (n + 3) / 4 * 4
round_up n Width.w64 = (n + 7) / 8 * 8

-- An integer, an enumeration or a pointer, an array, and a struct of members in the order of their
-- declarations.
mutual
  pub data CType : Type 0 where
    scalar : Width → CType
    array : ℕ → CType → CType
    struct : Members → CType

  pub data Members : Type 0 where
    end : Members
    member : String → CType → Members → Members

abbrev pub byte : CType
byte = CType.scalar Width.w8

abbrev pub short : CType
short = CType.scalar Width.w16

abbrev pub word : CType
word = CType.scalar Width.w32

abbrev pub quad : CType
quad = CType.scalar Width.w64

abbrev pub pointer : CType
pointer = CType.scalar Width.w64

abbrev pub enumeration : CType
enumeration = CType.scalar Width.w32

-- A struct's members as a list.
abbrev pub members : List (String × CType) → Members
members [] = Members.end
members ((name, t) ∷ ms) = Members.member name t (members ms)

unfoldable mutual
  pub alignment : CType → Width
  alignment (scalar w) = w
  alignment (array n t) = alignment t
  alignment (struct ms) = alignment_members ms

  pub alignment_members : Members → Width
  alignment_members end = Width.w8
  alignment_members (member name t ms) = wider (alignment t) (alignment_members ms)

unfoldable mutual
  unfolding alignment

  pub size : CType → ℕ
  size (scalar w) = bytes w
  size (array n t) = n * size t
  size (struct ms) = round_up (end_of 0 ms) (alignment (CType.struct ms))

  -- The first byte past the members that start at `from` or later.
  pub end_of : ℕ → Members → ℕ
  end_of from end = from
  end_of from (member name t ms) = end_of (round_up from (alignment t) + size t) ms

pub record Placement : Type 0 where
  pub name : String
  pub offset : ℕ
  pub type : CType

unfoldable pub placements : ℕ → Members → List Placement
placements from end = []
placements from (member name t ms) =
    let offset = round_up from (alignment t) in
    record { name = name; offset = offset; type = t } ∷ placements (offset + size t) ms

-- `__attribute__((packed))`
unfoldable pub packed_placements : ℕ → Members → List Placement
packed_placements from end = []
packed_placements from (member name t ms) =
    record { name = name; offset = from; type = t } ∷ packed_placements (from + size t) ms

unfoldable pub packed_size : Members → ℕ
packed_size end = 0
packed_size (member name t ms) = size t + packed_size ms

unfoldable pub find : String → List Placement → Option Placement
find name [] = none
find name (p ∷ ps) = if str_eq name p.name then some p else find name ps

-- The number in `n` bytes from `offset` on, the lowest byte first.
unfoldable pub number : ℕ → ℕ → List ℕ → ℕ
number zero offset bs = 0
number (suc n) offset bs = number n offset bs + 256 ^ n * get_or bs (offset + n) 0

unfoldable pub number_in : List ℕ → Option Placement → Option ℕ
number_in bs none = none
number_in bs (some p) = some (number (size p.type) p.offset bs)

unfoldable pub bytes_in : List ℕ → Option Placement → Option (List ℕ)
bytes_in bs none = none
bytes_in bs (some p) = some (drop p.offset bs)

-- `s->name` for a number, and the bytes from a member on.
unfoldable pub read_member : String → Members → List ℕ → Option ℕ
read_member name ms bs = number_in bs (find name (placements 0 ms))

unfoldable pub member_bytes : String → Members → List ℕ → Option (List ℕ)
member_bytes name ms bs = bytes_in bs (find name (placements 0 ms))

unfoldable pub read_packed : String → Members → List ℕ → Option ℕ
read_packed name ms bs = number_in bs (find name (packed_placements 0 ms))
