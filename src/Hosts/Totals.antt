-- ===== src/Hosts/Totals.antt =====
-- libs/lab_creation.py: what all machines of a lab want together (total_lab_resources).
use lab_in_a_box.Prelude.{
  ℕ, ◌+◌, true, false, Option, none, some, [], ◌∷◌, Dict, str_eq, if◌then◌else◌,
}
use lab_in_a_box.Result.{Result, ok, raise, value_error, type_error, ◌>>=◌}
use lab_in_a_box.Migrations.{Value, null, flag, number, text, items, Config, Owner, Definition}
use lab_in_a_box.Hosts.{int_of_text, common_of, node_or_common}

-- int(value or 0)
abbrev pub amount : Option Value → Result ℕ
amount none = ok 0
amount (some null) = ok 0
amount (some (flag true)) = ok 1
amount (some (flag false)) = ok 0
amount (some (number n)) = ok n
amount (some (text s)) =
    if str_eq s "" then ok 0 else elim (int_of_text s) [ none ↦ raise value_error | some n ↦ ok n ]
amount (some (items [])) = ok 0
amount (some (items (x ∷ xs))) = raise type_error

abbrev pub add_node : Config → Config → ℕ × ℕ × ℕ → Result (ℕ × ℕ × ℕ)
add_node common node total = do
  cpu ← amount (node_or_common node common "VM_CPU")
  mem ← amount (node_or_common node common "VM_MEM")
  disk ← amount (node_or_common node common "VM_DSK")
  ok (total.0 + cpu, total.1 + mem, total.2 + disk)

abbrev pub add_nodes : Config → Dict Owner → ℕ × ℕ × ℕ → Result (ℕ × ℕ × ℕ)
add_nodes common [] total = ok total
add_nodes common ((name, o) ∷ nodes) total =
    add_node common o.fields total >>= λ t. add_nodes common nodes t

unfoldable pub total_lab_resources : Definition → Result (ℕ × ℕ × ℕ)
total_lab_resources d = add_nodes (common_of d) d.nodes (0, 0, 0)
