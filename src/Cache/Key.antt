-- ===== src/Cache/Key.antt =====
-- The canonical keys of the cache: vyuh/src/cache/key.rs. Texts are their UTF-8 bytes.
pub mod Text
pub mod Apart
pub mod Clearing
use Prim.Native.Nat.{Ordering}
use vyuh.Prelude.{
  ℕ, zero, suc, ◌+◌, ◌-◌, ◌*◌, ◌/◌, ◌%◌, ◌≤◌, ◌<◌, ◌==◌, ltb, leb, ◌&&◌, ◌||◌, not, Bool, true,
  false, if◌then◌else◌, List, [], ◌∷◌, ◌++◌, length, all, any, is_empty,
}
use vyuh.Prelude.Bytes.{Bytes, ascii}
use vyuh.Cache.Error.{CacheError, CacheResult, ok, err, ◌>>=◌, ◌>>◌, check}

abbrev pub max_key_bytes : ℕ
max_key_bytes = 512

abbrev pub max_namespace_bytes : ℕ
max_namespace_bytes = 128

abbrev pub max_namespace_depth : ℕ
max_namespace_depth = 8

abbrev pub max_bulk_items : ℕ
max_bulk_items = 256

abbrev pub is_ascii_digit : ℕ → Bool
is_ascii_digit b = leb b'0' b && leb b b'9'

abbrev pub is_ascii_alphanumeric : ℕ → Bool
is_ascii_alphanumeric b = is_ascii_digit b || leb b'a' b && leb b b'z' || leb b'A' b && leb b b'Z'

abbrev pub is_ascii_control : ℕ → Bool
is_ascii_control b = ltb b 32 || b == 127

unfoldable pub validate_provider_name : Bytes → CacheResult (Unit {0})
validate_provider_name value =
    check
      (not (is_empty value)
        && leb (length value) 64
        && all (λ b. is_ascii_alphanumeric b || b == b'-' || b == b'_') value)
      CacheError.invalid_provider_name

unfoldable pub validate_key : Bytes → ℕ → CacheResult (Unit {0})
validate_key value limit =
    check (not (is_empty value) && leb (length value) limit && not (any is_ascii_control value))
      CacheError.invalid_key

-- `usize::to_string`: the decimal digits, on as much fuel as the number is large.
pub digits : ℕ → ℕ → Bytes
digits zero n = (n % 10 + b'0') ∷ []
digits (suc fuel) n =
    let more = digits fuel (n / 10) ++ (n % 10 + b'0') ∷ [] in
    if ltb n 10 then (n + b'0') ∷ [] else more

unfoldable pub to_string : ℕ → Bytes
unfolding digits
to_string n = digits n n

-- The length of a text, the text, and a colon after each.
unfoldable pub append_part : Bytes → Bytes → Bytes
unfolding to_string
append_part output value = output ++ (to_string (length value) ++ b':' ∷ (value ++ b':' ∷ []))

unfoldable pub provider_scope : Bytes → Bytes
unfolding append_part
provider_scope provider = append_part (ascii "vyuh-cache:v1:provider:") provider ++ b':' ∷ []

abbrev pub append_namespaces : Bytes → List Bytes → CacheResult Bytes
append_namespaces output [] = ok output
append_namespaces output (namespace ∷ namespaces) =
    validate_key namespace max_namespace_bytes
    >> append_namespaces (append_part output namespace) namespaces

-- `cache_scope`
abbrev pub cache_scope : Bytes → Bytes
cache_scope provider = provider_scope provider

unfoldable pub cache_key : Bytes → List Bytes → Bytes → CacheResult Bytes
unfolding validate_key provider_scope append_part to_string
cache_key provider namespaces key =
    validate_key key max_key_bytes
    >> (if ltb max_namespace_depth (length namespaces)
        then err CacheError.invalid_key
        else (append_namespaces
              (provider_scope provider
                ++ (ascii "ns:" ++ (to_string (length namespaces) ++ b':' ∷ [])))
              namespaces
            >>= λ output. ok (append_part (output ++ ascii "key:") key)))
