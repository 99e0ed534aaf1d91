-- ===== src/LabRun/Main.antt =====
-- scripts/setup_lab.py: main, from its arguments to its exit status, with phase_allocate_ips,
-- validate_addon_configs and _fold_issues_into_report. Reading files, the preflight of a definition
-- (validate_lab_definition), the backends' choice of addresses and the add-ons' own checks are parameters;
-- so is the removal of terminal colours from a line. What is only printed is left out.
use Prim.Native.String.{compare}
use Prim.Native.Nat.{Ordering}
use lab_in_a_box.Prelude.{
  ℕ, zero, suc, ◌-◌, code, String, Bool, true, false, not, ◌&&◌, ◌||◌, Option, none, some, List, [],
  ◌∷◌, ◌++◌, mem, keep, eqb, Dict, str_eq, if◌then◌else◌,
}
use lab_in_a_box.Result.{Result, ok, raise, died}
use lab_in_a_box.Text.{starts_with, contains, lstrip, rstrip, text_length}
use lab_in_a_box.Validate.{ℤ, pos, negsuc, int_text}
use lab_in_a_box.Migrations.{Owner, Definition}
use lab_in_a_box.Migrations.Defaults.{addon_names}
use lab_in_a_box.Migrations.Pending.{Record, require_current}
use lab_in_a_box.Hosts.{Settings}
use lab_in_a_box.Kubernetes.Nodes.{stripped}
use lab_in_a_box.Images.Downloads.{Fetch, phase_fetch_images}
use lab_in_a_box.LabRun.{
  Exit, message, Report, add_warning, add_error, exit_status, is_success, Outside, M, continue,
  ◌>>=◌, ◌>>◌, pure, lift, note,
}
use lab_in_a_box.LabRun.Clusters.{once}
use lab_in_a_box.LabRun.Whole.{Setting, setup_lab}

pub record Options : Type 0 where
  pub keep_them : Bool
  pub parallel : ℕ
  pub json_file : String

-- The text behind the first "=".
abbrev behind_equals : String → String
behind_equals String.[] = String.[]
behind_equals (String.◌∷◌ c s) = let rest = behind_equals s in if eqb (code c) 61 then s else rest

abbrev at_least_one : Option ℤ → Result ℕ
at_least_one none = raise (died "not a valid integer")
at_least_one (some (pos zero)) = raise (died "N must be at least 1")
at_least_one (some (pos (suc n))) = ok (suc n)
at_least_one (some (negsuc n)) = raise (died "N must be at least 1")

abbrev workers : ℕ → String → Result ℕ
workers before a =
    if str_eq a "--parallel"
    then ok 4
    else if starts_with a "--parallel="
    then at_least_one (int_text (rstrip (lstrip (behind_equals a))))
    else ok before

abbrev workers_of : ℕ → List String → Result ℕ
workers_of n [] = ok n
workers_of n (a ∷ args) = elim (workers n a) [ ok m ↦ workers_of m args | raise e ↦ raise e ]

abbrev is_unknown : String → Bool
is_unknown a =
    starts_with a "-"
    && not (mem a ("--keep" ∷ "--debug" ∷ "--parallel" ∷ []))
    && not (starts_with a "--parallel=")

abbrev options_with : (args unknown positional : List String) → ℕ → Result Options
options_with args (u ∷ unknown) positional n = raise (died "unknown option(s)")
options_with args [] [] n = raise (died "Usage")
options_with args [] (file ∷ files) n =
    ok (record { keep_them = mem "--keep" args; parallel = n; json_file = file })

unfoldable pub options : List String → Result Options
options args = elim (workers_of 0 args) [
  | raise e ↦ raise e
  | ok n ↦ options_with args (keep is_unknown args) (keep (λ a. not (starts_with a "-")) args) n
]

-- s.replace(tag, ""): `skip` characters of an occurrence are left.
abbrev pub without_tag : String → (skip : ℕ) → String → String
without_tag tag skip String.[] = String.[]
without_tag tag (suc skip) (String.◌∷◌ c s) = without_tag tag skip s
without_tag tag zero (String.◌∷◌ c s) =
    let inside = without_tag tag (text_length tag - 1) s in
    let outside = without_tag tag 0 s in
    if starts_with (String.◌∷◌ c s) tag then inside else String.◌∷◌ c outside

abbrev strip : String → String
strip s = rstrip (lstrip s)

abbrev pub fold_issue : String → Report → Report
fold_issue s r =
    if str_eq s ""
    then r
    else if contains "[ERROR]" s
    then add_error (message (strip (without_tag "[ERROR]" 0 s))) r
    else if contains "[WARN]" s
    then add_warning (message (strip (without_tag "[WARN]" 0 s))) r
    else add_error (message s) r

-- _fold_issues_into_report
unfoldable pub fold_issues : (uncoloured : String → String) → List String → Report → Report
fold_issues uncoloured [] r = r
fold_issues uncoloured (l ∷ lines) r =
    fold_issues uncoloured lines (fold_issue (strip (uncoloured l)) r)

-- sorted(names)
abbrev insert_name : String → List String → List String
insert_name n [] = n ∷ []
insert_name n (m ∷ names) =
    let behind = insert_name n names in
    elim (compare n m) [ Ordering.gt ↦ m ∷ behind | _ ↦ n ∷ (m ∷ names) ]

abbrev pub sorted_names : List String → List String
sorted_names [] = []
sorted_names (n ∷ names) = insert_name n (sorted_names names)

-- An add-on's own check: its return code, and the lines that it printed.
abbrev pub Check : Type 0
Check = Exit × List String

-- A definition, and the file that holds it.
abbrev pub Allocated : Type 0
Allocated = Definition × String

abbrev pub check_issues : String → Check → List String
check_issues addon (rc, lines) = if is_success rc then [] else lines

-- What main has besides the run: files, the record of schema versions, settings, and what it asks for.
pub record Program (W : Type 0) : Type 0 where
  -- Each add-on runs as a process that reads the definition from a file.
  pub out : (json_file : String) → Outside W
  pub env : Setting
  pub history : Record
  pub config : Settings
  pub read_text : String → Option String
  pub run_script : Fetch → W → Bool × W
  pub load : (json_file : String) → W → Result Definition × W
  -- backend.check_or_generate_ip, which writes to the definition
  pub choose_ip : (vm : String) → Definition → W → Result Definition × W
  -- primary.save_definition, with the path that it has written
  pub save : Definition → W → Result String × W
  -- validate_lab_definition, which may write to the definition: its lines, and whether it passed
  pub preflight : Definition → W → Result (Definition × List String × Bool) × W
  -- <installer> --validate <json_file>
  pub check_addon : (installer json_file : String) → W → Result Check × W
  pub schema : W → ℕ × W
  pub uncoloured : String → String

abbrev pub outer : {W A : Type 0} → (W → Result A × W) → M W A
outer f s = let (r, w) = f s.world in (r, record { world = w; report = s.report; calls = s.calls })

module _ {W : Type 0} (p : Program W) where
  abbrev pub fetching : Definition → M W (Unit {0})
  fetching d = outer (λ w.
      let (r, scripts, v) = phase_fetch_images p.run_script p.read_text d p.config w in (r, v))

  -- The nodes without an address.
  unfoldable pub without_ip : Definition → Dict Owner
  without_ip d = keep (λ n. str_eq (stripped p.env.str_of "myip" n.1.fields) "") d.nodes

  abbrev pub choose_ips : Dict Owner → Definition → M W Definition
  choose_ips [] d s = (ok d, s)
  choose_ips ((vm, o) ∷ nodes) d s =
      let (r, t) = outer (p.choose_ip vm d) s in continue r (choose_ips nodes) t

  abbrev pub allocate_missing : Dict Owner → Definition → (json_file : String) → M W Allocated
  allocate_missing [] d json_file = pure (d, json_file)
  allocate_missing (n ∷ nodes) d json_file = do
    given ← choose_ips (n ∷ nodes) d
    saved ← outer (p.save given)
    pure (given, saved)

  unfoldable pub phase_allocate_ips : Definition → (json_file : String) → M W Allocated
  unfolding without_ip
  phase_allocate_ips d json_file = allocate_missing (without_ip d) d json_file

  abbrev pub addon_issues : (json_file addon : String) → Option String → M W (List String)
  addon_issues json_file addon none = pure ("[ERROR] install script not found" ∷ [])
  addon_issues json_file addon (some installer) =
      outer (p.check_addon installer json_file) >>= λ check. pure (check_issues addon check)

  abbrev pub all_issues : (json_file : String) → List String → M W (List String)
  all_issues json_file [] s = (ok [], s)
  all_issues json_file (a ∷ addons) s =
      let (r, t) = addon_issues json_file a (p.env.installer_of a) s in
      continue r (λ here. all_issues json_file addons >>= λ rest. pure (here ++ rest)) t

  abbrev pub passes : List String → Bool
  passes [] = true
  passes (i ∷ issues) = false

  -- validate_addon_configs, with its issues
  unfoldable pub validate_addon_configs :
      Definition → (json_file : String) → M W (List String × Bool)
  validate_addon_configs d json_file = lift (addon_names d) >>= λ names.
      all_issues json_file (sorted_names (once [] names)) >>= λ issues. pure (issues, passes issues)

  abbrev pub finish : Definition → (json_file : String) → Options → M W ℕ
  finish d json_file o = setup_lab (p.out json_file) p.env d o.keep_them o.parallel >> λ s.
      (ok (exit_status s.report), s)

  abbrev pub after_addons : Definition → (json_file : String) → Options → List String × Bool → M W ℕ
  after_addons d json_file o (issues, true) = finish d json_file o
  after_addons d json_file o (issues, false) = note (fold_issues p.uncoloured issues) >> pure 1

  abbrev pub after_preflight :
      Options → (json_file : String) → Definition × List String × Bool → M W ℕ
  after_preflight o json_file (d, lines, true) =
      note (fold_issues p.uncoloured lines)
      >> (validate_addon_configs d json_file >>= after_addons d json_file o)
  after_preflight o json_file (d, lines, false) = note (fold_issues p.uncoloured lines) >> pure 1

  -- main, behind its arguments
  unfoldable pub main_with : Options → M W ℕ
  unfolding phase_allocate_ips validate_addon_configs
  main_with o = do
    loaded ← outer (p.load o.json_file)
    _ ← lift (require_current p.env.str_of loaded p.history)
    _ ← fetching loaded
    allocated ← phase_allocate_ips loaded o.json_file
    answer ← outer (p.preflight allocated.0)
    after_preflight o allocated.1 answer

  abbrev schema_or_run : List String → String → M W ℕ
  schema_or_run args first =
      if mem first ("--input-definition" ∷ "--schema" ∷ [])
      then outer (λ w. let (n, v) = p.schema w in (ok n, v))
      else lift (options args) >>= main_with

  abbrev first_or_empty : List String → String
  first_or_empty [] = ""
  first_or_empty (a ∷ args) = a

  unfoldable pub main : List String → M W ℕ
  unfolding main_with
  main args =
      if mem (first_or_empty args) ("--version" ∷ "-v" ∷ [])
      then pure 0
      else if mem "--help" args || mem "-h" args
      then pure 0
      else schema_or_run args (first_or_empty args)
