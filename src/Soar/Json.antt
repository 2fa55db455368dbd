-- ===== src/Soar/Json.antt =====
-- The JSON values that conditions and playbooks are made of, with the operations of Python that
-- the SOAR code applies to them.
use threat_scope_xdr.Prelude.{
  ℕ, suc, String, ◌≡◌, refl, Bool, true, false, not, ◌&&◌, ◌||◌, Option, none, some, List, [], ◌∷◌,
  str_eq, ltb, ◌==◌, if◌then◌else◌, is_some, nonempty, concat,
}
use Prim.Native.Char.{code}

-- `negsuc n` is -(n + 1)
pub data ℤ : Type 0 where
  pos negsuc : ℕ → ℤ

-- a whole number, or a float by its 64 bits
pub data Number : Type 0 where
  int : ℤ → Number
  float : ℕ → Number

mutual
  pub data Json : Type 0 where
    nothing : Json
    boolean : Bool → Json
    number : Number → Json
    str : String → Json
    arr : Elements → Json
    dict : Entries → Json

  pub data Elements : Type 0 where
    nil : Elements
    cons : Json → Elements → Elements

  pub data Entries : Type 0 where
    end : Entries
    entry : String → Json → Entries → Entries

-- What the code calls and this repository does not implement: the Unicode tables, and the
-- comparisons of numbers of which one is a float.
pub record Python : Type 0 where
  pub casefold : String → String
  pub repr : String → String
  pub float_less : Number → Number → Bool
  pub float_less_equal : Number → Number → Bool
  pub float_equal : Number → Number → Bool

-- `fields.get(key)`
unfoldable pub find_entry : String → Entries → Option Json
find_entry key end = none
find_entry key (entry k v fs) =
    let rest = find_entry key fs in if str_eq k key then some v else rest

abbrev pub or_nothing : Option Json → Json
or_nothing none = nothing
or_nothing (some v) = v

abbrev pub size_entries : Entries → ℕ
size_entries end = 0
size_entries (entry k v fs) = suc (size_entries fs)

abbrev pub size_elements : Elements → ℕ
size_elements nil = 0
size_elements (cons x xs) = suc (size_elements xs)

-- `type(value).__name__`
unfoldable pub type_name : Json → String
type_name nothing = "NoneType"
type_name (boolean b) = "bool"
type_name (number (int n)) = "int"
type_name (number (float n)) = "float"
type_name (str s) = "str"
type_name (arr xs) = "list"
type_name (dict fs) = "dict"

-- `bool(value)`; the two zeros of a float differ in the sign bit
unfoldable pub truthy : Json → Bool
truthy nothing = false
truthy (boolean b) = b
truthy (number (int (pos n))) = not (n == 0)
truthy (number (int (negsuc n))) = true
truthy (number (float n)) = not (n == 0 || n == 9223372036854775808)
truthy (str s) = nonempty s
truthy (arr xs) = not (size_elements xs == 0)
truthy (dict fs) = not (size_entries fs == 0)

int_less : ℤ → ℤ → Bool
int_less (pos m) (pos n) = ltb m n
int_less (pos m) (negsuc n) = false
int_less (negsuc m) (pos n) = true
int_less (negsuc m) (negsuc n) = ltb n m

int_equal : ℤ → ℤ → Bool
int_equal (pos m) (pos n) = m == n
int_equal (negsuc m) (negsuc n) = m == n
int_equal _ _ = false

-- a boolean counts as a number in `==`
number_of : Json → Option Number
number_of (number n) = some n
number_of (boolean true) = some (int (pos 1))
number_of (boolean false) = some (int (pos 0))
number_of _ = none

module _ (py : Python) where
  unfoldable pub less : Number → Number → Bool
  unfolding int_less
  less (int a) (int b) = int_less a b
  less a b = py.float_less a b

  unfoldable pub less_equal : Number → Number → Bool
  unfolding int_less
  less_equal (int a) (int b) = not (int_less b a)
  less_equal a b = py.float_less_equal a b

  number_equal : Number → Number → Bool
  unfolding int_equal
  number_equal (int a) (int b) = int_equal a b
  number_equal a b = py.float_equal a b

  numeric_equal : Option Number → Option Number → Bool
  unfolding number_equal
  numeric_equal (some a) (some b) = number_equal a b
  numeric_equal _ _ = false

  -- `a == b`, at any depth; dictionaries whatever their order
  unfoldable mutual
    unfolding numeric_equal number_of

    pub equal : Json → Json → Bool
    equal nothing nothing = true
    equal (boolean a) b = numeric_equal (number_of (boolean a)) (number_of b)
    equal (number a) b = numeric_equal (some a) (number_of b)
    equal (str s) (str t) = str_eq s t
    equal (arr xs) (arr ys) = equal_elements xs ys
    equal (dict fs) (dict gs) = size_entries fs == size_entries gs && within fs gs
    equal _ _ = false

    pub equal_elements : Elements → Elements → Bool
    equal_elements nil nil = true
    equal_elements (cons x xs) (cons y ys) = equal x y && equal_elements xs ys
    equal_elements _ _ = false

    pub within : Entries → Entries → Bool
    within end gs = true
    within (entry k v fs) gs =
        equal v (or_nothing (find_entry k gs)) && is_some (find_entry k gs) && within fs gs

  -- `type(a) is type(b) and a == b`
  unfoldable pub same : Json → Json → Bool
  same a b = str_eq (type_name a) (type_name b) && equal a b

  -- `any(type(item) is type(value) and item == value for item in items)`
  unfoldable pub is_among : Json → Elements → Bool
  is_among value nil = false
  is_among value (cons x xs) = same x value || is_among value xs

-- `s.split(".")`
glue : String → List String → List String
glue c [] = c ∷ []
glue c (p ∷ ps) = concat c p ∷ ps

unfoldable pub split_dots : String → List String
unfolding glue concat
split_dots String.[] = "" ∷ []
split_dots (String.◌∷◌ c s) =
    let rest = split_dots s in if code c == b'.' then "" ∷ rest else glue (String.◌∷◌ c "") rest

split_dots_test : split_dots "trigger..id" ≡ "trigger" ∷ "" ∷ "id" ∷ []
unfolding split_dots
split_dots_test = refl
