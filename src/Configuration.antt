-- ===== src/Configuration.antt =====
-- rustrial-k8s-object-syncer/src/main.rs: the configuration, read from environment variables.
pub mod Namespaces
use Prim.Native.Char.{Char, code}
use k8s_object_syncer.Base.{
  ℕ, String, string_eq, Bool, true, false, ◌||◌, ◌&&◌, not, ◌==◌, nat_eq, leb, Option, none, some,
  List, [], ◌∷◌, map, retain, contains, is_empty, if◌then◌else◌,
}

-- The code points of `White_Space`, which `str::trim` strips.
unfoldable pub is_whitespace : Char → Bool
is_whitespace c =
    let n = code c in
    (leb 9 n && leb n 13)
    || n == 0x20
    || n == 0x85
    || n == 0xA0
    || n == 0x1680
    || (leb 0x2000 n && leb n 0x200A)
    || n == 0x2028
    || n == 0x2029
    || n == 0x202F
    || n == 0x205F
    || n == 0x3000

unfoldable pub trim_start : String → String
trim_start String.[] = ""
trim_start (String.◌∷◌ c s) = if is_whitespace c then trim_start s else String.◌∷◌ c s

-- A whitespace character at the end goes, one before other text stays.
abbrev pub keep_front : Char → String → String
keep_front c String.[] = if is_whitespace c then "" else String.◌∷◌ c ""
keep_front c (String.◌∷◌ d s) = String.◌∷◌ c (String.◌∷◌ d s)

unfoldable pub trim_end : String → String
trim_end String.[] = ""
trim_end (String.◌∷◌ c s) = keep_front c (trim_end s)

-- `str::trim`
unfoldable pub trim : String → String
unfolding trim_start trim_end
trim s = trim_end (trim_start s)

-- `v.split(",")`: the piece that the text begins with, and the others.
unfoldable pub split_comma : String → String × List String
split_comma String.[] = ("", [])
split_comma (String.◌∷◌ c s) =
    let (piece, pieces) = split_comma s in
    if code c == b',' then ("", piece ∷ pieces) else (String.◌∷◌ c piece, pieces)

abbrev pub pieces_of : String → List String
pieces_of v = let (piece, pieces) = split_comma v in piece ∷ pieces

-- `collect` into a set: the first of equal names stays.
unfoldable pub collect : List String → List String
collect [] = []
collect (x ∷ l) = x ∷ retain (λ y. not (y == x)) (collect l)

unfoldable pub normalize : List String → Option (List String)
normalize hs = if is_empty hs || contains hs "*" || contains hs "" then none else some hs

-- `env_var`, for the value of the variable.
unfoldable pub env_var : Option String → Option String
unfolding trim
env_var none = none
env_var (some v) = let t = trim v in if t == "" then none else some t

-- The set of namespaces that a variable names.
unfoldable pub namespaces_of : String → Option (List String)
unfolding normalize collect split_comma trim
namespaces_of v = normalize (collect (retain (λ n. not (n == "")) (map trim (pieces_of v))))

-- The namespaces of a variable that may not be set; none stands for all.
unfoldable pub configured : Option String → Option (List String)
unfolding env_var namespaces_of
configured value = elim (env_var value) [ none ↦ none | some v ↦ namespaces_of v ]

-- The API for `ObjectSync` objects is within a namespace if exactly one is watched.
unfoldable pub object_sync_api : Option (List String) → Option String
object_sync_api (some (ns ∷ [])) = some ns
object_sync_api _ = none

-- The fields other than the client; `resource_sync` is the namespace of the API, none for all.
pub record Configuration : Type 0 where
  pub resource_sync : Option String
  pub watch_namespaces : Option (List String)
  pub source_namespaces : Option (List String)
  pub target_namespaces : Option (List String)

-- `Configuration::new`, where `env` is `std::env::var(name).ok()`.
unfoldable pub new : (String → Option String) → Configuration
unfolding configured object_sync_api
new env =
    let watch = configured (env "WATCH_NAMESPACES") in
    record {
      resource_sync = object_sync_api watch;
      watch_namespaces = watch;
      source_namespaces = configured (env "SOURCE_NAMESPACES");
      target_namespaces = configured (env "TARGET_NAMESPACES");
    }
