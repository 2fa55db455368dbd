-- ===== src/Prelude/Text.antt =====
-- Python's text operations that the services use, over the native strings.
use Prim.Native.Nat.{ℕ, zero, suc, ◌-◌, ◌/◌, ◌%◌}
use Prim.Native.Char.{code}
use Prim.Native.String.{String, len, slice, find, ◌++◌ as concat_op, compare}
use Prim.Native.Nat.{Ordering}
use mathlib.Core.Bool.{Bool, true, false, ◌&&◌, ◌||◌, not}
use mathlib.Core.List.{List, [], ◌∷◌}
use mathlib.Core.Option.{Option, none, some}
use mathlib.Core.Path.{◌≡◌, refl, ap}
use text.Mathlib.TextEquality.{eq_iff}
use text.Mathlib.Text.{◌==◌ as str_eq}
use mathlib.Core.Logic.{inl, inr}
use threat_scope_xdr.Prelude.Lists.{all}
use native.Mathlib.Omega.{arith}
use threat_scope_xdr.Prelude.Tests.{leb, ◌==◌, if◌then◌else◌, Bool-cases}

-- `t in s`
unfoldable pub contains : String → String → Bool
contains s t = leb (find s t) (len s)

-- `s.endswith(t)`
unfoldable pub ends_with : String → String → Bool
ends_with s t = leb (len t) (len s) && str_eq (slice s (len s - len t) (len s)) t

-- `bool(s)`
abbrev pub nonempty : String → Bool
nonempty s = not (str_eq s "")

-- `k in ks`
abbrev pub elem : String → List String → Bool
elem k [] = false
elem k (j ∷ ks) = str_eq j k || elem k ks

-- `s[:n]`
unfoldable pub take : ℕ → String → String
take zero s = ""
take (suc n) String.[] = ""
take (suc n) (String.◌∷◌ c s) = String.◌∷◌ c (take n s)

-- `s.rstrip("/")`
unfoldable pub rstrip_slash : String → String
rstrip_slash String.[] = ""
rstrip_slash (String.◌∷◌ c s) =
    let rest = rstrip_slash s in
    if str_eq rest "" && (code c == b'/') then "" else String.◌∷◌ c rest

-- `str.isspace` of one character
unfoldable pub is_space : ℕ → Bool
is_space c =
    (leb 9 c && leb c 13)
    || (leb 28 c && leb c 32)
    || c == 133
    || c == 160
    || c == 5760
    || (leb 8192 c && leb c 8202)
    || c == 8232
    || c == 8233
    || c == 8239
    || c == 8287
    || c == 12288

lstrip : String → String
lstrip String.[] = ""
lstrip (String.◌∷◌ c s) = let rest = lstrip s in if is_space (code c) then rest else String.◌∷◌ c s

rstrip : String → String
rstrip String.[] = ""
rstrip (String.◌∷◌ c s) =
    let rest = rstrip s in if str_eq rest "" && is_space (code c) then "" else String.◌∷◌ c rest

-- `s.strip()`
unfoldable pub strip : String → String
unfolding lstrip rstrip is_space
strip s = rstrip (lstrip s)

-- the words of `s` with one space between them; `started` after the first, `gap` after a space
squeeze : Bool → Bool → String → String
squeeze started gap String.[] = ""
squeeze started gap (String.◌∷◌ c s) =
    let space = is_space (code c) in
    let rest = squeeze (started || not space) space s in
    if space
    then rest
    else if started && gap
    then String.◌∷◌ " " (String.◌∷◌ c rest)
    else String.◌∷◌ c rest

-- `" ".join(s.split())`
unfoldable pub join_words : String → String
unfolding squeeze is_space
join_words s = squeeze false false s

strip_test : strip "  a b " ≡ "a b"
unfolding strip
strip_test = refl

join_words_test : join_words "  a   b c " ≡ "a b c"
unfolding join_words
join_words_test = refl

-- `s + t`, and the parts of an f-string
unfoldable pub concat : String → String → String
concat s t = concat_op s t

-- `a == b` for values that may be None
abbrev pub opt_eq : Option String → Option String → Bool
opt_eq none none = true
opt_eq (some a) (some b) = str_eq a b
opt_eq _ _ = false

digit : ℕ → String
digit n =
    if n == 0
    then "0"
    else if n == 1
    then "1"
    else if n == 2
    then "2"
    else if n == 3
    then "3"
    else if n == 4
    then "4"
    else if n == 5
    then "5"
    else if n == 6
    then "6"
    else if n == 7
    then "7"
    else if n == 8
    then "8"
    else "9"

-- the digits of `n` in front of `acc`; a number has fewer digits than its value plus one
show_digits : ℕ → ℕ → String → String
unfolding digit concat
show_digits zero n acc = acc
show_digits (suc fuel) n acc =
    let longer = concat (digit (n % 10)) acc in
    let rest = show_digits fuel (n / 10) longer in if n / 10 == 0 then longer else rest

-- `str(n)` of a number that is not negative
unfoldable pub show : ℕ → String
unfolding show_digits
show n = show_digits (suc n) n ""

show_test : show 1207 ≡ "1207"
unfolding show
show_test = refl

pub opt_eq-eq : (a b : Option String) → opt_eq a b ≡ true → a ≡ b
opt_eq-eq none none h = refl
opt_eq-eq (some a) (some b) h = ap some ((eq_iff a b).0 h)
opt_eq-eq none (some b) h = cc
opt_eq-eq (some a) none h = cc

-- `dict.fromkeys(ks)`: each text once, in the order of first use
without : String → List String → List String
without k [] = []
without k (j ∷ js) = let rest = without k js in if str_eq j k then rest else j ∷ rest

unfoldable pub unique : List String → List String
unfolding without
unique [] = []
unique (k ∷ ks) = k ∷ without k (unique ks)

text_le : String → String → Bool
text_le s t = elim (compare s t) [ Ordering.gt ↦ false | _ ↦ true ]

insert_text : String → List String → List String
insert_text k [] = k ∷ []
insert_text k (j ∷ js) = let rest = insert_text k js in if text_le k j then k ∷ j ∷ js else j ∷ rest

-- `sorted(ks)`
unfoldable pub sorted : List String → List String
unfolding insert_text text_le
sorted [] = []
sorted (k ∷ ks) = insert_text k (sorted ks)

sorted_test : sorted (unique ("b" ∷ "a" ∷ "b" ∷ [])) ≡ "a" ∷ "b" ∷ []
unfolding sorted unique
sorted_test = refl

insert_text-ne-nil : (k : String) (js : List String) → insert_text k js ≡ [] → ⊥
unfolding insert_text
insert_text-ne-nil k [] e = cc e
insert_text-ne-nil k (j ∷ js) e = elim (Bool-cases (text_le k j)) [
  | inl le ↦ cc (rw le at e)
  | inr gt ↦ cc (rw gt at e)
]

-- only the empty list is sorted into the empty list
pub sorted-nil : (ks : List String) → sorted ks ≡ [] → ks ≡ []
unfolding sorted
sorted-nil [] h = refl
sorted-nil (k ∷ ks) h = absurd (insert_text-ne-nil k (sorted ks) h)

all-insert_text :
    (p : String → Bool) (k : String) (ks : List String)
    → p k ≡ true
    → all p ks ≡ true
    → all p (insert_text k ks) ≡ true
unfolding insert_text text_le
all-insert_text p k [] h hs = ground arith
all-insert_text p k (j ∷ ks) h hs = ground (arith, all-insert_text p k ks)

pub all-sorted : (p : String → Bool) (ks : List String) → all p ks ≡ true → all p (sorted ks) ≡ true
unfolding sorted
all-sorted p [] h = refl
all-sorted p (k ∷ ks) h = ground (arith, all-sorted p ks, all-insert_text p k (sorted ks))
