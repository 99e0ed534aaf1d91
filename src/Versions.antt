-- ===== src/Versions.antt =====
-- libs/versions.py: the versions that an add-on declares it can install, and the checks of a lab against
-- them. The values of version fields are texts here; an issue is a value with the data that its sentence
-- shows.
pub mod Prefix
use Prim.Native.String
use lab_in_a_box.Prelude.{
  ℕ, ◌+◌, ◌-◌, ◌*◌, Char, code, String, Bool, true, false, not, ◌&&◌, ◌||◌, Option, none, some,
  List, [], ◌∷◌, ◌++◌, Dict, get, has, mem, keep, map, eqb, ltb, str_eq, if◌then◌else◌,
}
use lab_in_a_box.Text.{◌<>◌, lstrip, rstrip, is_space, is_digit, starts_with}

-- The rest behind "--version"; none where the text does not begin so.
abbrev behind_text : String → String → Option String
behind_text String.[] s = some s
behind_text (String.◌∷◌ p ps) String.[] = none
behind_text (String.◌∷◌ p ps) (String.◌∷◌ c s) =
    let rest = behind_text ps s in if eqb (code p) (code c) then rest else none

-- [=\s]
abbrev is_gap : Char → Bool
is_gap c = eqb (code c) 61 || is_space c

abbrev drop_gap : String → String
drop_gap String.[] = String.[]
drop_gap (String.◌∷◌ c s) = let rest = drop_gap s in if is_gap c then rest else String.◌∷◌ c s

-- re.sub(r"^--version[=\s]+", "", s), given what stands behind "--version"
abbrev without_flag : Option String → String → String
without_flag (some (String.◌∷◌ c rest)) s = if is_gap c then drop_gap rest else s
without_flag _ s = s

abbrev bare : String → String
bare s = let v = rstrip (lstrip s) in without_flag (behind_text "--version" v) v

-- v[1:] if v[:1] in ("v", "V") and v[1:2].isdigit() else v
abbrev without_v : String → String
without_v (String.◌∷◌ c (String.◌∷◌ d s)) =
    if (eqb (code c) 118 || eqb (code c) 86) && is_digit d
    then String.◌∷◌ d s
    else String.◌∷◌ c (String.◌∷◌ d s)
without_v s = s

unfoldable pub normalize : String → String
normalize value = without_v (bare value)

-- What re.match(r"\d+(?:\.\d+)*", s) splits into, its first digits having been read as `n`.
abbrev numbers_from : ℕ → String → List ℕ
numbers_from n String.[] = n ∷ []
numbers_from n (String.◌∷◌ c String.[]) =
    if is_digit c then (n * 10 + (code c - 48)) ∷ [] else n ∷ []
numbers_from n (String.◌∷◌ c (String.◌∷◌ d s)) =
    let longer = numbers_from (n * 10 + (code c - 48)) (String.◌∷◌ d s) in
    let next = numbers_from (code d - 48) s in
    if is_digit c then longer else if eqb (code c) 46 && is_digit d then n ∷ next else n ∷ []

unfoldable pub leading_numbers : String → List ℕ
leading_numbers String.[] = []
leading_numbers (String.◌∷◌ c s) = if is_digit c then numbers_from (code c - 48) s else []

-- _numbers
unfoldable pub numbers_of : String → List ℕ
unfolding normalize leading_numbers
numbers_of version = leading_numbers (normalize version)

-- v == d or v.startswith(d + ".")
abbrev pub is_release : String → String → Bool
is_release d v = str_eq v d || starts_with v (d <> ".")

unfoldable pub matches : String → String → Bool
unfolding normalize starts_with
matches declared value =
    let d = normalize declared in not (str_eq d "") && is_release d (normalize value)

abbrev two_at_most : List ℕ → List ℕ
two_at_most (a ∷ b ∷ ns) = a ∷ b ∷ []
two_at_most ns = ns

abbrev has_two : List ℕ → Bool
has_two (a ∷ b ∷ ns) = true
has_two _ = false

-- s without a "v" in front
abbrev after_v : String → String
after_v (String.◌∷◌ c s) = if eqb (code c) 118 then s else String.◌∷◌ c s
after_v s = s

-- kubernetes_minor; the text names a minor version if two numbers stand at its start
unfoldable pub kubernetes_minor : String → List ℕ
unfolding numbers_of leading_numbers
kubernetes_minor clu_rel =
    if has_two (leading_numbers (after_v (rstrip (lstrip clu_rel))))
    then two_at_most (numbers_of clu_rel)
    else []

-- An inclusive range of minor versions; "" where an end is not given.
pub record Range : Type 0 where
  pub low : String
  pub high : String

pub record Declared : Type 0 where
  pub version : String
  pub kubernetes : Dict Range
  pub os : List String

unfoldable pub entry_for : List Declared → String → Option Declared
unfolding matches
entry_for [] value = none
entry_for (e ∷ es) value =
    let rest = entry_for es value in if matches e.version value then some e else rest

-- a < b, as Python compares tuples
abbrev pub before : List ℕ → List ℕ → Bool
before a [] = false
before [] (y ∷ b) = true
before (x ∷ a) (y ∷ b) = ltb x y || (eqb x y && before a b)

abbrev is_nil : List ℕ → Bool
is_nil [] = true
is_nil (n ∷ ns) = false

-- The Kubernetes version lies outside of the range.
abbrev outside : List ℕ → Range → Bool
outside kube r =
    (not (is_nil (numbers_of r.low)) && before kube (two_at_most (numbers_of r.low)))
    || (not (is_nil (numbers_of r.high)) && before (two_at_most (numbers_of r.high)) kube)

pub data Issue : Type 0 where
  not_in_matrix : (field value : String) → Issue
  wrong_cluster : (field declared clu_type : String) → Issue
  outside_range : (field declared clu_type clu_rel : String) → Issue
  wrong_os : (field declared variant : String) → Issue

abbrev issue_if : Bool → Issue → List Issue
issue_if true i = i ∷ []
issue_if false i = []

abbrev range_issues : String → String → String → String → Option Range → List Issue
range_issues field declared clu_type clu_rel none = wrong_cluster field declared clu_type ∷ []
range_issues field declared clu_type clu_rel (some r) =
    issue_if (not (is_nil (kubernetes_minor clu_rel)) && outside (kubernetes_minor clu_rel) r)
      (outside_range field declared clu_type clu_rel)

abbrev cluster_issues : String → String → String → String → Dict Range → List Issue
cluster_issues field declared clu_type clu_rel [] = []
cluster_issues field declared clu_type clu_rel (r ∷ rs) =
    if str_eq clu_type ""
    then []
    else range_issues field declared clu_type clu_rel (get clu_type (r ∷ rs))

-- The variants are a set in alphabetical order.
abbrev os_issues : String → String → List String → List String → List Issue
os_issues field declared [] variants = []
os_issues field declared (o ∷ os) variants =
    map (wrong_os field declared) (keep (λ v. not (mem v (o ∷ os))) variants)

abbrev entry_issues : String → String → Option Declared → String → String → List String → List Issue
entry_issues field value none clu_type clu_rel variants = not_in_matrix field value ∷ []
entry_issues field value (some e) clu_type clu_rel variants =
    cluster_issues field e.version clu_type clu_rel e.kubernetes
    ++ os_issues field e.version e.os variants

abbrev field_issues :
    String → List Declared → Option String → String → String → List String → List Issue
field_issues field entries none clu_type clu_rel variants = []
field_issues field entries (some value) clu_type clu_rel variants =
    if str_eq value ""
    then []
    else entry_issues field value (entry_for entries value) clu_type clu_rel variants

-- issues, for a matrix whose fields, and variants that, are given in alphabetical order
unfoldable pub issues :
    Dict (List Declared) → Dict String → (clu_type clu_rel : String) → List String → List Issue
unfolding entry_for kubernetes_minor numbers_of
issues [] cfg clu_type clu_rel variants = []
issues ((field, entries) ∷ versions) cfg clu_type clu_rel variants =
    field_issues field entries (get field cfg) clu_type clu_rel variants
    ++ issues versions cfg clu_type clu_rel variants
