-- ===== src/Configuration/Namespaces.antt =====
-- What the namespace variables are read as.
use Prim.Native.Char.{Char, code}
use text.Mathlib.TextLemmas.{nil-append, cons-append}
use k8s_object_syncer.Base.{
  String, string_eq, ◌<>◌, ◌≡◌, ◌≢◌, refl, ap, ◌∙◌, true, false, not, ◌==◌, Option, some, List, [],
  ◌∷◌, map, retain, contains, All, arith,
}
use k8s_object_syncer.Configuration.{
  is_whitespace, trim_start, trim_end, trim, keep_front, split_comma, pieces_of, collect, normalize,
  namespaces_of, configured,
}
use k8s_object_syncer.ResourceController.Lookup.{in_namespaces}
use k8s_object_syncer.ResourceController.Watch.{is_target_namespace}

abbrev AllChars : (Char → Type 0) → String → Type 0
AllChars P String.[] = Unit
AllChars P (String.◌∷◌ c s) = P c × AllChars P s

abbrev pub IsBlank : String → Type 0
IsBlank = AllChars (λ c. is_whitespace c ≡ true)

-- Neither whitespace nor commas.
abbrev pub IsPlain : String → Type 0
IsPlain = AllChars (λ c. (is_whitespace c ≡ false) × (code c ≢ b','))

abbrev pub HasNoComma : String → Type 0
HasNoComma = AllChars (λ c. code c ≢ b',')

trim_start-append : (w s : String) → IsBlank w → trim_start (w <> s) ≡ trim_start s
unfolding trim_start
trim_start-append String.[] s h = rw nil-append refl
trim_start-append (String.◌∷◌ c w) s h =
    simp cons-append (ground (arith, trim_start-append w s h.1))

trim_end_blank : (w : String) → IsBlank w → trim_end w ≡ ""
unfolding trim_end
trim_end_blank String.[] h = refl
trim_end_blank (String.◌∷◌ c w) h = rw (trim_end_blank w h.1) (ground arith)

keep_front_plain :
    (c : Char) (s : String) → is_whitespace c ≡ false → keep_front c s ≡ String.◌∷◌ c s
keep_front_plain c String.[] h = ground arith
keep_front_plain c (String.◌∷◌ d s) h = refl

trim_end-append : (n w : String) → IsPlain n → IsBlank w → trim_end (n <> w) ≡ n
unfolding trim_end
trim_end-append String.[] w p h = rw nil-append (trim_end_blank w h)
trim_end-append (String.◌∷◌ c n) w (p, ps) h =
    rw cons-append (ground (arith, trim_end-append n w ps h, keep_front_plain c n p.0))

-- A name with blanks around it.
pub record Padded : Type 0 where
  pub before : String
  pub name : String
  pub after : String

abbrev pub spelled : Padded → String
spelled p = p.before <> (p.name <> p.after)

pub record IsPadded (p : Padded) : Type 0 where
  pub blank_before : IsBlank p.before
  pub blank_after : IsBlank p.after
  pub plain_name : IsPlain p.name
  pub real_name : (p.name ≢ "") × (p.name ≢ "*")

trim_start_plain : (n w : String) → IsPlain n → n ≢ "" → trim_start (n <> w) ≡ n <> w
unfolding trim_start
trim_start_plain String.[] w p h = absurd (h refl)
trim_start_plain (String.◌∷◌ c n) w p h = rw cons-append (ground arith)

-- Trimming takes the blanks away and nothing else.
trim-spelled : (p : Padded) → IsPadded p → trim (spelled p) ≡ p.name
unfolding trim
trim-spelled p h = rw (trim_start-append p.before (p.name <> p.after) h.blank_before) (
    rw (trim_start_plain p.name p.after h.plain_name (h.real_name.0))
      (trim_end-append p.name p.after h.plain_name h.blank_after))

-- The texts with commas between them.
unfoldable pub join : List String → String
join [] = ""
join (p ∷ []) = p
join (p ∷ q ∷ ps) = p <> ("," <> join (q ∷ ps))

split_comma_last : (p : String) → HasNoComma p → split_comma p ≡ (p, [])
unfolding split_comma
split_comma_last String.[] h = refl
split_comma_last (String.◌∷◌ c p) h = ground (arith, split_comma_last p h.1)

split_comma-append :
    (p rest : String) → HasNoComma p → split_comma (p <> ("," <> rest)) ≡ (p, pieces_of rest)
unfolding split_comma
split_comma-append String.[] rest h = rw (nil-append, cons-append, nil-append) (ground arith)
split_comma-append (String.◌∷◌ c p) rest h =
    rw cons-append (ground (arith, split_comma-append p rest h.1))

pieces_of-join :
    (p : String) (ps : List String) → All HasNoComma (p ∷ ps) → pieces_of (join (p ∷ ps)) ≡ p ∷ ps
unfolding join
pieces_of-join p [] h = rw (split_comma_last p h.0) refl
pieces_of-join p (q ∷ ps) h =
    rw (split_comma-append p (join (q ∷ ps)) h.0) (ground (arith, pieces_of-join q ps h.1))

blank_no_comma : (c : Char) → is_whitespace c ≡ true → code c ≢ b','
unfolding is_whitespace
blank_no_comma c h = ground arith

IsBlank-HasNoComma : (w : String) → IsBlank w → HasNoComma w
IsBlank-HasNoComma String.[] h = tt
IsBlank-HasNoComma (String.◌∷◌ c w) (p, ps) = (blank_no_comma c p, IsBlank-HasNoComma w ps)

IsPlain-HasNoComma : (n : String) → IsPlain n → HasNoComma n
IsPlain-HasNoComma String.[] h = tt
IsPlain-HasNoComma (String.◌∷◌ c n) (p, ps) = (p.1, IsPlain-HasNoComma n ps)

HasNoComma-append : (s t : String) → HasNoComma s → HasNoComma t → HasNoComma (s <> t)
HasNoComma-append String.[] t h k = rw nil-append k
HasNoComma-append (String.◌∷◌ c s) t (p, ps) k = rw cons-append (p, HasNoComma-append s t ps k)

HasNoComma-spelled : (p : Padded) → IsPadded p → HasNoComma (spelled p)
HasNoComma-spelled p h =
    HasNoComma-append p.before (p.name <> p.after) (IsBlank-HasNoComma p.before h.blank_before) (
      HasNoComma-append p.name p.after (IsPlain-HasNoComma p.name h.plain_name)
        (IsBlank-HasNoComma p.after h.blank_after))

All-HasNoComma : (ps : List Padded) → All IsPadded ps → All HasNoComma (map spelled ps)
All-HasNoComma [] h = tt
All-HasNoComma (p ∷ ps) (h, hs) = (HasNoComma-spelled p h, All-HasNoComma ps hs)

abbrev names : List Padded → List String
names = map (λ p. p.name)

map-trim : (ps : List Padded) → All IsPadded ps → map trim (map spelled ps) ≡ names ps
map-trim [] h = refl
map-trim (p ∷ ps) (h, hs) = cc (trim-spelled p h, map-trim ps hs)

retain-names :
    (ps : List Padded) → All IsPadded ps → retain (λ n. not (n == "")) (names ps) ≡ names ps
retain-names [] h = refl
retain-names (p ∷ ps) (h, hs) = ground (arith, retain-names ps hs)

retain_others :
    (x : String) (l : List String) → All (λ y. y ≢ x) l → retain (λ y. not (y == x)) l ≡ l
retain_others x [] h = refl
retain_others x (y ∷ l) (h, hs) = ground (arith, retain_others x l hs)

-- No text comes twice.
abbrev pub Distinct : List String → Type 0
Distinct [] = Unit
Distinct (x ∷ l) = All (λ y. y ≢ x) l × Distinct l

collect-Distinct : (l : List String) → Distinct l → collect l ≡ l
unfolding collect
collect-Distinct [] h = refl
collect-Distinct (x ∷ l) (h, hs) = rw (collect-Distinct l hs, retain_others x l h) refl

lacks : (v : String) (ps : List Padded) → All (λ p. p.name ≢ v) ps → contains (names ps) v ≡ false
lacks v [] h = refl
lacks v (p ∷ ps) (h, hs) = ground (arith, lacks v ps hs)

All-real :
    (ps : List Padded) → All IsPadded ps → All (λ p. p.name ≢ "") ps × All (λ p. p.name ≢ "*") ps
All-real [] h = (tt, tt)
All-real (p ∷ ps) (h, hs) = let (a, b) = All-real ps hs in ((h.real_name.0, a), (h.real_name.1, b))

normalize_plain :
    (p : Padded) (ps : List Padded)
    → All (λ p. p.name ≢ "") (p ∷ ps)
    → All (λ p. p.name ≢ "*") (p ∷ ps)
    → normalize (names (p ∷ ps)) ≡ some (names (p ∷ ps))
unfolding normalize
normalize_plain p ps nonempty no_star =
    ground (arith, lacks "" (p ∷ ps) nonempty, lacks "*" (p ∷ ps) no_star)

-- A list of different names with commas between them, with any whitespace around each, is read as
-- these names, if none is empty or a star, or holds whitespace or a comma.
pub namespaces_of-join :
    (p : Padded) (ps : List Padded)
    → All IsPadded (p ∷ ps)
    → Distinct (names (p ∷ ps))
    → namespaces_of (join (map spelled (p ∷ ps))) ≡ some (names (p ∷ ps))
unfolding namespaces_of
namespaces_of-join p ps h different =
    let all = p ∷ ps in
    let (nonempty, no_star) = All-real all h in
    let real = λ (n : String). not (n == "") in
    ap (λ l. normalize (collect (retain real (map trim l))))
      (pieces_of-join (spelled p) (map spelled ps) (All-HasNoComma all h))
    ∙ ap (λ l. normalize (collect (retain real l))) (map-trim all h)
    ∙ ap (λ l. normalize (collect l)) (retain-names all h)
    ∙ ap normalize (collect-Distinct (names all) different)
    ∙ normalize_plain p ps nonempty no_star

-- On what a variable is read as, the two tests of the controllers agree: the one with an empty set
-- and a star in mind, and the one without.
pub in_namespaces-configured :
    (value : Option String) (ns : String)
    → in_namespaces (configured value) ns ≡ is_target_namespace (configured value) ns
unfolding configured namespaces_of normalize in_namespaces is_target_namespace
in_namespaces-configured value ns = ground arith
