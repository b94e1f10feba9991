-- ===== src/Dashboard/Json.antt =====
-- A JSON object as the dashboard's modules check it, and checks that fail as `none`.
use Prim.Native.Char.{code}
use Prim.Native.String.{[], ◌∷◌, count}
use act_sim_scope_infra.Common.{
  ◌≡◌, refl, ℕ, String, Bool, true, false, ◌&&◌, ◌||◌, Option, none, some, leb, ◌==◌, if◌then◌else◌,
  str_eq, Dict, get_default, string_key,
}

-- The values told apart: `negative` is any integer below 0, and `other` any fraction, list or object.
pub data Json : Type 0 where
  null negative other : Json
  boolean : Bool → Json
  integer : ℕ → Json
  string : String → Json

abbrev pub Object : Type 0
Object = Dict String Json

infixl 10 ◌>>=◌
abbrev pub ◌>>=◌ {ℓ κ} : {A : Type ℓ} {B : Type κ} → Option A → (A → Option B) → Option B
none >>= next = none
some value >>= next = next value

infixl 10 ◌>>◌
abbrev pub ◌>>◌ {ℓ} : {B : Type ℓ} → Option (Unit {0}) → Option B → Option B
checked >> later = checked >>= λ _. later

abbrev pub require : Bool → Option (Unit {0})
require true = some tt
require false = none

-- What a result holds, if there is one.
abbrev pub Gives {ℓ} : {A : Type ℓ} → (A → Type 0) → Option A → Type 0
Gives P none = Unit
Gives P (some a) = P a

pub Gives-bind {ℓ κ} :
    {A : Type ℓ} {B : Type κ} (P : B → Type 0) (o : Option A) (f : A → Option B)
    → ((a : A) → o ≡ some a → Gives P (f a))
    → Gives P (o >>= f)
Gives-bind P none f h = tt
Gives-bind P (some a) f h = h a refl

pub Gives-require {ℓ} :
    {B : Type ℓ} (P : B → Type 0) (b : Bool) (k : Option B)
    → (b ≡ true → Gives P k)
    → Gives P (require b >> k)
Gives-require P true k h = h refl
Gives-require P false k h = tt

-- `event.get(key)`
abbrev pub get : String → Object → Json
get key = get_default key null

-- `type(value) is int and value > 0`
abbrev pub positive_of : Json → Option ℕ
positive_of (integer n) = if n == 0 then none else some n
positive_of value = none

-- `isinstance(value, str)`
abbrev pub text_of : Json → Option String
text_of (string s) = some s
text_of value = none

-- `isinstance(value, str) and value`
abbrev pub name_of : Json → Option String
name_of (string s) = if str_eq s "" then none else some s
name_of value = none

-- `value is None or isinstance(value, str)`
abbrev pub optional_text : Json → Option (Option String)
optional_text null = some none
optional_text (string s) = some (some s)
optional_text value = none

-- `c in "0123456789abcdef"`
abbrev pub is_hex_digit : ℕ → Bool
is_hex_digit c = leb 48 c && leb c 57 || leb 97 c && leb c 102

abbrev pub all_hex : String → Bool
all_hex [] = true
all_hex (c ∷ s) = is_hex_digit (code c) && all_hex s

-- A GUID of 32 hexadecimal digits.
abbrev pub guid_of : Json → Option String
guid_of (string s) = if count s == 32 && all_hex s then some s else none
guid_of value = none
