-- ===== src/Remote.antt =====
-- libs/lab_creation.py: ssh_run and ssh_output, and the shell commands that libs/overlay.py sends.
-- A command that only touches files is given its effect on the files of the host. What another command
-- answers, and whether a host is reachable at all, is up to an environment, which may answer differently
-- after each command. Each command sent is recorded.
pub mod Up
use lab_in_a_box.Prelude.{
  ℕ, String, Bool, true, false, not, ◌&&◌, Option, none, some, List, [], ◌∷◌, ◌++◌, any, keep, eqb,
  if◌then◌else◌, str_eq,
}
use lab_in_a_box.Result.{Error, Result, ok, raise, remote_error}
use lab_in_a_box.Text.{words}
use lab_in_a_box.Text.Lines.{strip_text}

-- The files that the overlay keeps on a host.
pub data File : Type 0 where
  wg_privkey wg_pubkey wg_conf alloc site_registry node_registry dns_registry routes_script
        routes_unit :
      File

abbrev file_number : File → ℕ
file_number wg_privkey = 0
file_number wg_pubkey = 1
file_number wg_conf = 2
file_number alloc = 3
file_number site_registry = 4
file_number node_registry = 5
file_number dns_registry = 6
file_number routes_script = 7
file_number routes_unit = 8

abbrev pub same_file : File → File → Bool
same_file f g = eqb (file_number f) (file_number g)

pub data Command : Type 0 where
  -- commands on files
  touch read exists : File → Command
  write append : File → List String → Command
  has_line : File → String → Command
  delete_lines : (String → Bool) → File → Command
  delete_block : File → String → Command
  remove_routes generate_key : Command
  -- commands on the system
  probe install_wireguard wg_show wg_up wg_reload ip_forward ip_forward_persist : Command
  routes_service_enable : Command
  wg_set_peer : (key allowed : String) → Command
  wg_remove_peer : (key : String) → Command
  route_replace route_del : (cidr : String) → Command

pub record World : Type 0 where
  pub files : String → File → Option (List String)
  -- the newest first
  pub issued : List (String × Command)

pub record Env : Type 0 where
  -- whether the command can be run on the host, and ends with status 0 where that is not for the files
  -- to decide
  pub succeeds : List (String × Command) → String → Command → Bool
  pub genkey : List (String × Command) → String → String
  pub pubkey_of : String → String

abbrev pub set_file : String → File → Option (List String) → World → World
set_file h f content w = record w {
  files = λ g k. if str_eq h g && same_file f k then content else w.files g k;
}

abbrev pub lines_of : Option (List String) → List String
lines_of none = []
lines_of (some ls) = ls

abbrev is_some : Option (List String) → Bool
is_some none = false
is_some (some ls) = true

abbrev pub M : Type 0 → Type 0
M A = World → Result A × World

abbrev pub continue {ℓ κ} :
    {A : Type ℓ} {B : Type κ} → Result A → (A → World → Result B × World) → World → Result B × World
continue (ok a) f w = f a w
continue (raise e) f w = (raise e, w)

infixl 5 ◌>>=◌ ◌>>◌
abbrev pub ◌>>=◌ : {A B : Type 0} → M A → (A → M B) → M B
◌>>=◌ m f w = let (r, w') = m w in continue r f w'

abbrev pub ◌>>◌ : {B : Type 0} → M (Unit {0}) → M B → M B
m >> k = m >>= λ _. k

abbrev pub pure : {A : Type 0} → A → M A
pure a w = (ok a, w)

abbrev pub throw : {A : Type 0} → Error → M A
throw e w = (raise e, w)

-- if not b: m
abbrev pub unless : Bool → M (Unit {0}) → M (Unit {0})
unless true m = pure tt
unless false m = m

abbrev pub lift : {A : Type 0} → Result A → M A
lift r w = (r, w)

-- What is left behind the first empty line.
abbrev pub after_blank : List String → List String
after_blank [] = []
after_blank (l ∷ ls) = let rest = after_blank ls in if str_eq l "" then ls else rest

-- sed "<ln>,<end>d": from the marker's line to the next empty line, or to the end.
unfoldable pub drop_block : String → List String → List String
drop_block marker [] = []
drop_block marker (l ∷ ls) =
    let rest = drop_block marker ls in if str_eq l marker then after_blank ls else l ∷ rest

-- The lines behind the marker's.
abbrev behind : String → List String → Option (List String)
behind marker [] = none
behind marker (l ∷ ls) = let rest = behind marker ls in if str_eq l marker then some ls else rest

abbrev third_word : List String → Option String
third_word (a ∷ b ∷ c ∷ ws) = some c
third_word _ = none

-- sed -n "$((ln+2))p" | awk '{print $3}': the key two lines below the marker
abbrev key_of : Option (List String) → Option String
key_of (some (head ∷ l ∷ ls)) = third_word (words l)
key_of _ = none

unfoldable pub block_key : String → List String → Option String
block_key marker ls = key_of (behind marker ls)

abbrev note_removal : String → Option String → World → World
note_removal h none w = w
note_removal h (some key) w = record w { issued = (h, wg_remove_peer key) ∷ w.issued }

-- The exit status of a command that runs, and what it does to the files of its host.
effect : Env → String → Command → World → Bool × World
unfolding drop_block block_key
effect env h (touch f) w = (true, set_file h f (some (lines_of (w.files h f))) w)
effect env h (read f) w = (is_some (w.files h f), w)
effect env h (exists f) w = (is_some (w.files h f), w)
effect env h (write f ls) w = (true, set_file h f (some ls) w)
effect env h (append f ls) w = (true, set_file h f (some (lines_of (w.files h f) ++ ls)) w)
effect env h (has_line f l) w = (any (λ k. str_eq k l) (lines_of (w.files h f)), w)
effect env h (delete_lines doomed f) w = elim (w.files h f) [
  | none ↦ (true, w)
  | some ls ↦ (true, set_file h f (some (keep (λ l. not (doomed l)) ls)) w)
]
effect env h (delete_block f marker) w = elim (w.files h f) [
  | none ↦ (true, w)
  | some ls ↦
      (true, note_removal h (block_key marker ls) (set_file h f (some (drop_block marker ls)) w))
]
effect env h generate_key w =
    let key = env.genkey w.issued h in
    (
      true,
      set_file h wg_pubkey (some (env.pubkey_of key ∷ []))
          (set_file h wg_privkey (some (key ∷ [])) w),
    )
effect env h remove_routes w = (true, set_file h routes_unit none (set_file h routes_script none w))
effect env h _ w = (true, w)

module _ (env : Env) where
  -- ssh_run(h, c, check=False).returncode == 0
  unfoldable pub ssh_test : String → Command → M Bool
  unfolding effect
  ssh_test h c w =
      let noted = record w { issued = (h, c) ∷ w.issued } in
      if env.succeeds w.issued h c
      then (let (status, after) = effect env h c noted in (ok status, after))
      else (ok false, noted)

  abbrev check_status : Bool → M (Unit {0})
  check_status true = pure tt
  check_status false = throw remote_error

  -- ssh_run(h, c): a status that is not 0 raises RuntimeError
  unfoldable pub ssh_run : String → Command → M (Unit {0})
  unfolding ssh_test
  ssh_run h c = do status ← ssh_test h c; check_status status

  -- ssh_run(h, c, check=False), its result not looked at
  unfoldable pub ssh_try : String → Command → M (Unit {0})
  unfolding ssh_test
  ssh_try h c = do _ ← ssh_test h c; pure tt

  -- ssh_output(h, "cat f"): the stripped text of the file
  unfoldable pub ssh_output : String → File → M (List String)
  unfolding ssh_run
  ssh_output h f = do ssh_run h (read f); λ w. (ok (strip_text (lines_of (w.files h f))), w)

  -- mkdir -p ... && touch f, then cat f
  unfoldable pub read_registry : String → File → M (List String)
  unfolding ssh_run ssh_output
  read_registry hub f = do ssh_run hub (touch f); ssh_output hub f
