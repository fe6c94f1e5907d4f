-- ===== src/Terminal/Matching.antt =====
-- What a match of a command's name and a search for a pattern say of the texts.
use existent_os.Prelude.{
  ℕ, ◌≡◌, refl, sym, ◌∙◌, ap, Bool, true, false, ◌||◌, ◌↔◌, List, [], ◌∷◌, ◌++◌, arith, Bool-cases,
  inl, inr, ◌==◌,
}
use existent_os.CString.{text}
use existent_os.Terminal.{match_command, starts_with, search_from, contains}

text_end : (c : ℕ) (s : List ℕ) → c == 0 ≡ true → text (c ∷ s) ≡ []
text_end c s z = rw z refl

text_more : (c : ℕ) (s : List ℕ) → c == 0 ≡ false → text (c ∷ s) ≡ c ∷ text s
text_more c s z = rw z refl

-- A prefix.
prefix_of_starts_with :
    (a b : List ℕ) → starts_with a b ≡ true → (post : List ℕ) × (text a ≡ text b ++ post)
unfolding starts_with
prefix_of_starts_with a [] h = (text a, refl)
prefix_of_starts_with [] (y ∷ b) h = ([], ap (λ t. t ++ []) (sym (text_end y b h)))
prefix_of_starts_with (x ∷ a) (y ∷ b) h = elim (Bool-cases (y == 0)) [
  | inl z ↦ (text (x ∷ a), ap (λ t. t ++ text (x ∷ a)) (sym (text_end y b z)))
  | inr z ↦
      let more : x == 0 ≡ false = ground arith in
      let same : x ≡ y = ground arith in
      let rest : starts_with a b ≡ true = ground arith in
      let (post, e) = prefix_of_starts_with a b rest in
      (post, text_more x a more ∙ (λ i. same i ∷ e i) ∙ ap (λ t. t ++ post) (sym (text_more y b z)))
]

starts_with_of_prefix : (a b post : List ℕ) → text a ≡ text b ++ post → starts_with a b ≡ true
unfolding starts_with
starts_with_of_prefix a [] post h = refl
starts_with_of_prefix [] (y ∷ b) post h = elim (Bool-cases (y == 0)) [
  | inl z ↦ z
  | inr z ↦ let e = h ∙ ap (λ t. t ++ post) (text_more y b z) in absurd (cc (e))
]
starts_with_of_prefix (x ∷ a) (y ∷ b) post h = elim (Bool-cases (y == 0)) [
  | inl z ↦ ground (arith, z)
  | inr z ↦ elim (Bool-cases (x == 0)) [
    | inl none_left ↦
        let e = sym (text_end x a none_left) ∙ h ∙ ap (λ t. t ++ post) (text_more y b z) in
        absurd (cc (e))
    | inr more ↦
        let e = sym (text_more x a more) ∙ h ∙ ap (λ t. t ++ post) (text_more y b z) in
        let same : x ≡ y = cc (e) in
        let tail : text a ≡ text b ++ post = cc (e) in
        let rest = starts_with_of_prefix a b post tail in ground (arith, z, more, same, rest)
  ]
]

found_of_search :
    (t needle : List ℕ)
    → search_from t needle ≡ true
    → (pre post : List ℕ) × (text t ≡ pre ++ (text needle ++ post))
unfolding search_from
found_of_search [] needle h = absurd (cc)
found_of_search (c ∷ t) needle h = elim (Bool-cases (c == 0)) [
  | inl z ↦ absurd (cc (rw z at h))
  | inr z ↦ elim (Bool-cases (starts_with (c ∷ t) needle)) [
    | inl here ↦ let (post, e) = prefix_of_starts_with (c ∷ t) needle here in ([], post, e)
    | inr not_here ↦
        let (pre, post, e) = found_of_search t needle (rw (z, not_here) at h) in
        (c ∷ pre, post, text_more c t z ∙ ap (λ s. c ∷ s) e)
  ]
]

-- A text that holds a pattern with a first character is not empty.
no_pattern :
    (n : ℕ) (needle pre post : List ℕ)
    → n == 0 ≡ false
    → [] ≡ pre ++ (text (n ∷ needle) ++ post)
    → false ≡ true
no_pattern n needle [] post z h =
    let e = h ∙ ap (λ t. t ++ post) (text_more n needle z) in absurd (cc (e))
no_pattern n needle (p ∷ pre) post z h = absurd (cc (h))

search_of_found :
    (t pre : List ℕ) (n : ℕ) (needle post : List ℕ)
    → n == 0 ≡ false
    → text t ≡ pre ++ (text (n ∷ needle) ++ post)
    → search_from t (n ∷ needle) ≡ true
unfolding search_from
search_of_found [] pre n needle post z h = no_pattern n needle pre post z h
search_of_found (c ∷ t) [] n needle post z h = elim (Bool-cases (c == 0)) [
  | inl e ↦ rw e (no_pattern n needle [] post z (sym (text_end c t e) ∙ h))
  | inr e ↦ let here = starts_with_of_prefix (c ∷ t) (n ∷ needle) post h in rw (e, here) refl
]
search_of_found (c ∷ t) (p ∷ pre) n needle post z h = elim (Bool-cases (c == 0)) [
  | inl e ↦ rw e (no_pattern n needle (p ∷ pre) post z (sym (text_end c t e) ∙ h))
  | inr e ↦
      let whole = sym (text_more c t e) ∙ h in
      let tail : text t ≡ pre ++ (text (n ∷ needle) ++ post) = cc (whole) in
      let rest = search_of_found t pre n needle post z tail in
      elim (Bool-cases (starts_with (c ∷ t) (n ∷ needle))) [
        | inl here ↦ rw (e, here) refl
        | inr not_here ↦ rw (e, not_here) rest
      ]
]

-- A pattern is found exactly when its text stands somewhere in the text.
pub contains_iff :
    (t needle : List ℕ)
    → (contains t needle ≡ true) ↔ ((pre post : List ℕ) × (text t ≡ pre ++ (text needle ++ post)))
unfolding contains
contains_iff t [] = (λ _. ([], text t, refl), λ _. refl)
contains_iff t (n ∷ needle) = elim (Bool-cases (n == 0)) [
  | inl z ↦ (λ _. ([], text t, ap (λ s. s ++ text t) (sym (text_end n needle z))), λ _. rw z refl)
  | inr z ↦ (
    λ h. found_of_search t (n ∷ needle) (rw z at h),
    λ (pre, post, e). rw z (search_of_found t pre n needle post z e),
  )
]

-- Nothing follows, or a space.
unfoldable pub ends_word : List ℕ → Bool
ends_word [] = true
ends_word (c ∷ s) = c == b' '

matched :
    (c n : List ℕ)
    → match_command c n ≡ true
    → (post : List ℕ) × (text c ≡ text n ++ post) × (ends_word post ≡ true)
unfolding match_command ends_word
matched [] [] h = ([], refl, refl)
matched [] (y ∷ n) h = ([], ap (λ t. t ++ []) (sym (text_end y n h)), refl)
matched (x ∷ c) [] h = elim (Bool-cases (x == 0)) [
  | inl z ↦ ([], text_end x c z, refl)
  | inr z ↦ (x ∷ text c, text_more x c z, rw z at h)
]
matched (x ∷ c) (y ∷ n) h = elim (Bool-cases (y == 0)) [
  | inl z ↦ elim (Bool-cases (x == 0)) [
    | inl ended ↦ ([], text_end x c ended ∙ ap (λ t. t ++ []) (sym (text_end y n z)), refl)
    | inr more ↦ (
      x ∷ text c,
      text_more x c more ∙ ap (λ t. t ++ (x ∷ text c)) (sym (text_end y n z)),
      ground arith,
    )
  ]
  | inr z ↦
      let more : x == 0 ≡ false = ground arith in
      let same : x ≡ y = ground arith in
      let rest : match_command c n ≡ true = ground arith in
      let (post, e, ends) = matched c n rest in
      (
        post,
        text_more x c more ∙ (λ i. same i ∷ e i) ∙ ap (λ t. t ++ post) (sym (text_more y n z)),
        ends,
      )
]

-- Where the name has ended the command has too, or has a space.
ends_here :
    (x : ℕ) (c post : List ℕ)
    → text (x ∷ c) ≡ post
    → ends_word post ≡ true
    → (x == 0 || x == b' ') ≡ true
unfolding ends_word
ends_here x c [] h ends = elim (Bool-cases (x == 0)) [
  | inl z ↦ rw z refl
  | inr z ↦ let e = sym h ∙ text_more x c z in absurd (cc (e))
]
ends_here x c (p ∷ post) h ends = elim (Bool-cases (x == 0)) [
  | inl z ↦ rw z refl
  | inr z ↦ let e = sym (text_more x c z) ∙ h in let same : x ≡ p = cc (e) in rw z (rw same ends)
]

matches :
    (c n post : List ℕ) → text c ≡ text n ++ post → ends_word post ≡ true → match_command c n ≡ true
unfolding match_command ends_word
matches [] [] post h ends = refl
matches [] (y ∷ n) post h ends = elim (Bool-cases (y == 0)) [
  | inl z ↦ z
  | inr z ↦ let e = h ∙ ap (λ t. t ++ post) (text_more y n z) in absurd (cc (e))
]
matches (x ∷ c) [] post h ends = ends_here x c post h ends
matches (x ∷ c) (y ∷ n) post h ends = elim (Bool-cases (y == 0)) [
  | inl z ↦
      let here = ends_here x c post (h ∙ ap (λ t. t ++ post) (text_end y n z)) ends in
      ground (arith, z, here)
  | inr z ↦ elim (Bool-cases (x == 0)) [
    | inl ended ↦
        let e = sym (text_end x c ended) ∙ h ∙ ap (λ t. t ++ post) (text_more y n z) in
        absurd (cc (e))
    | inr more ↦
        let e = sym (text_more x c more) ∙ h ∙ ap (λ t. t ++ post) (text_more y n z) in
        let same : x ≡ y = cc (e) in
        let tail : text c ≡ text n ++ post = cc (e) in
        let rest = matches c n post tail ends in ground (arith, z, more, same, rest)
  ]
]

-- A command matches a name exactly when its text begins with the name, and nothing or a space
-- follows.
pub match_command_iff :
    (c n : List ℕ)
    → (match_command c n ≡ true)
      ↔ ((post : List ℕ) × (text c ≡ text n ++ post) × (ends_word post ≡ true))
match_command_iff c n = (matched c n, λ (post, e, ends). matches c n post e ends)
