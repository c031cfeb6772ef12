-- ===== src/Strings.antt =====
-- The functions of Go's `strings` that the program calls, on byte strings.
pub mod Laws
use s.Prelude.{
  ℕ, zero, suc, ◌-◌, length, Bool, true, false, ◌&&◌, ◌||◌, Option, none, some, List, [], ◌∷◌, ◌++◌,
  Text, ◌==◌, nat_eq, text_eq, nat_beq, if◌then◌else◌,
}

-- strings.HasPrefix(s, prefix)
unfoldable pub has_prefix : Text → Text → Bool
has_prefix s [] = true
has_prefix [] (p ∷ ps) = false
has_prefix (c ∷ s) (p ∷ ps) = c == p && has_prefix s ps

-- s[len(prefix):], for a prefix of s
unfoldable pub drop_prefix : Text → Text → Text
drop_prefix s [] = s
drop_prefix [] (p ∷ ps) = []
drop_prefix (c ∷ s) (p ∷ ps) = drop_prefix s ps

-- strings.TrimPrefix
unfoldable pub trim_prefix : Text → Text → Text
unfolding drop_prefix has_prefix
trim_prefix s prefix = if has_prefix s prefix then drop_prefix s prefix else s

-- What stands before a suffix; `none` where the text does not end in it.
unfoldable pub cut_suffix : Text → Text → Option Text
cut_suffix [] suffix = if suffix == [] then some [] else none
cut_suffix (c ∷ s) suffix =
    let rest = cut_suffix s suffix in
    if c ∷ s == suffix then some [] else elim rest [ none ↦ none | some front ↦ some (c ∷ front) ]

-- strings.HasSuffix and strings.TrimSuffix
unfoldable pub has_suffix : Text → Text → Bool
unfolding cut_suffix
has_suffix s suffix = elim (cut_suffix s suffix) [ none ↦ false | some _ ↦ true ]

unfoldable pub trim_suffix : Text → Text → Text
unfolding cut_suffix
trim_suffix s suffix = elim (cut_suffix s suffix) [ none ↦ s | some front ↦ front ]

-- strings.Join
unfoldable pub join : Text → List Text → Text
join sep [] = []
join sep (part ∷ []) = part
join sep (part ∷ next ∷ parts) = part ++ (sep ++ join sep (next ∷ parts))

abbrev pub cons_first : ℕ → List Text → List Text
cons_first c [] = (c ∷ []) ∷ []
cons_first c (part ∷ parts) = (c ∷ part) ∷ parts

-- strings.Split at a byte
unfoldable pub split : ℕ → Text → List Text
split sep [] = [] ∷ []
split sep (c ∷ cs) =
    let rest = split sep cs in if nat_beq c sep then [] ∷ rest else cons_first c rest

-- strings.SplitN at a byte into two parts; `none` where there is one
unfoldable pub split_once : ℕ → Text → Option (Text × Text)
split_once sep [] = none
split_once sep (c ∷ cs) =
    let rest = split_once sep cs in
    if nat_beq c sep
    then some ([], cs)
    else elim rest [ none ↦ none | some (key, value) ↦ some (c ∷ key, value) ]

-- The loop of `replace_all`, which still skips some bytes of the last match.
unfoldable pub replace_from : Text → Text → ℕ → Text → Text
replace_from old new skip [] = []
replace_from old new (suc skip) (c ∷ s) = replace_from old new skip s
replace_from old new zero (c ∷ s) =
    let matched = replace_from old new (length old - 1) s in
    let rest = replace_from old new 0 s in
    if has_prefix (c ∷ s) old then new ++ matched else c ∷ rest

-- strings.ReplaceAll, for an old text that is not empty
abbrev pub replace_all : Text → Text → Text → Text
replace_all old new s = replace_from old new 0 s

-- strings.Contains of one byte
unfoldable pub contains_byte : ℕ → Text → Bool
contains_byte b [] = false
contains_byte b (c ∷ s) = nat_beq c b || contains_byte b s

-- What follows the first occurrence of a text that is not empty; `none` without one.
unfoldable pub after : Text → Text → Option Text
after sep [] = none
after sep (c ∷ s) =
    let later = after sep s in
    if has_prefix (c ∷ s) sep then some (drop_prefix (c ∷ s) sep) else later

-- strings.SplitN at a byte into two parts, the first of them
abbrev pub first_part : ℕ → Text → Text
first_part sep s = elim (split_once sep s) [ none ↦ s | some (front, _) ↦ front ]

-- s[:n] and s[n:]
unfoldable pub take : ℕ → Text → Text
take zero s = []
take (suc n) [] = []
take (suc n) (c ∷ s) = c ∷ take n s

unfoldable pub drop : ℕ → Text → Text
drop zero s = s
drop (suc n) [] = []
drop (suc n) (c ∷ s) = drop n s
