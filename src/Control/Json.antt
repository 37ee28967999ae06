-- ===== src/Control/Json.antt =====
-- JSON values as scripts/control_store.py meets them: `_safe_payload`, and the patterns that it
-- tests texts with.
use Prim.Native.Char.{code}
use re_dstm.Prelude.{
  ℤ, ℕ, String, Bool, true, false, not, ◌&&◌, ◌||◌, List, [], ◌∷◌, Option, none, some, leb, ◌==◌,
  str_eq, text_in, if◌then◌else◌, length,
}

-- A JSON number is an integer here; no control payload has fractions.
mutual
  pub data Json : Type 0 where
    null : Json
    boolean : Bool → Json
    number : ℤ → Json
    text : String → Json
    list : Items → Json
    object : Fields → Json

  pub data Items : Type 0 where
    nil : Items
    cons : Json → Items → Items

  pub data Fields : Type 0 where
    end : Fields
    field : String → Json → Fields → Fields

abbrev pub codes : String → List ℕ
codes String.[] = []
codes (String.◌∷◌ c s) = code c ∷ codes s

abbrev between : ℕ → ℕ → ℕ → Bool
between lo hi c = leb lo c && leb c hi

abbrev is_letter : ℕ → Bool
is_letter c = between b'a' b'z' c || between b'A' b'Z' c

-- `[a-zA-Z0-9_.:-]`
abbrev pub is_id_char : ℕ → Bool
is_id_char c =
    is_letter c || between b'0' b'9' c || c == b'_' || c == b'.' || c == b':' || c == b'-'

-- `[0-9a-f-]`
abbrev pub is_hex_char : ℕ → Bool
is_hex_char c = between b'0' b'9' c || between b'a' b'f' c || c == b'-'

abbrev all_codes : (ℕ → Bool) → List ℕ → Bool
all_codes p [] = true
all_codes p (c ∷ cs) = p c && all_codes p cs

-- `re.fullmatch(r"[a-zA-Z0-9_.:-]{lo,hi}", s) is not None`
unfoldable pub is_identifier : ℕ → ℕ → String → Bool
is_identifier lo hi s =
    let cs = codes s in leb lo (length cs) && leb (length cs) hi && all_codes is_id_char cs

abbrev pub strip_prefix : List ℕ → List ℕ → Option (List ℕ)
strip_prefix [] cs = some cs
strip_prefix (p ∷ ps) [] = none
strip_prefix (p ∷ ps) (c ∷ cs) = if p == c then strip_prefix ps cs else none

abbrev starts : List ℕ → List ℕ → Bool
starts ps cs = elim (strip_prefix ps cs) [ none ↦ false | some _ ↦ true ]

-- the roots of `/(?:etc|home|opt|srv)/`
abbrev local_roots : List String
local_roots = "/etc/" ∷ "/home/" ∷ "/opt/" ∷ "/srv/" ∷ []

abbrev starts_with_any : List String → List ℕ → Bool
starts_with_any [] cs = false
starts_with_any (r ∷ rs) cs = starts (codes r) cs || starts_with_any rs cs

-- `[a-zA-Z]:\\`
abbrev is_drive : List ℕ → Bool
is_drive (a ∷ b ∷ c ∷ cs) = is_letter a && b == b':' && c == 92
is_drive _ = false

abbrev path_in_codes : List ℕ → Bool
path_in_codes [] = false
path_in_codes (c ∷ cs) =
    is_drive (c ∷ cs) || starts_with_any local_roots (c ∷ cs) || path_in_codes cs

-- `_LOCAL_PATH.search(value) is not None`
unfoldable pub has_local_path : String → Bool
has_local_path s = path_in_codes (codes s)

abbrev pub forbidden_keys : List String
forbidden_keys =
    "body" ∷ "cookie" ∷ "credential" ∷ "hostname" ∷ "ip" ∷ "password" ∷ "path" ∷ "secret" ∷ "title"
    ∷ "token" ∷ "url" ∷ []

-- `str.lower` is the argument.
unfoldable mutual
  pub safe_payload : (String → String) → Json → Bool
  safe_payload lower null = true
  safe_payload lower (boolean b) = true
  safe_payload lower (number n) = true
  safe_payload lower (text s) = not (has_local_path s)
  safe_payload lower (list xs) = safe_items lower xs
  safe_payload lower (object fs) = safe_fields lower fs

  pub safe_items : (String → String) → Items → Bool
  safe_items lower nil = true
  safe_items lower (cons x xs) = safe_payload lower x && safe_items lower xs

  pub safe_fields : (String → String) → Fields → Bool
  safe_fields lower end = true
  safe_fields lower (field k v fs) =
      not (text_in (lower k) forbidden_keys) && safe_payload lower v && safe_fields lower fs

-- `payload.get(key)`
abbrev pub get_field : String → Fields → Option Json
get_field k end = none
get_field k (field j v fs) = if str_eq j k then some v else get_field k fs
