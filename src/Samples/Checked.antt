-- ===== src/Samples/Checked.antt =====
-- Definitions that are checked against a schema.
use mathlib.Core.Logic.{◌↔◌}
use lab_in_a_box.Prelude.{String, Bool, true, false, none, [], ◌∷◌, ◌≡◌, refl, inl}
use lab_in_a_box.Validate.{
  pos, Value, number, object, Fields, no_fields, field_then, Config, Field, is_absent,
  is_placeholder, as_int, value_finding, section_findings,
}
use lab_in_a_box.Validate.Sections.{
  declared, group, no_nodes, node_then, Sections, walk, section_fields, definition_findings,
}
use lab_in_a_box.Validate.Bounds.{IsPort, value_finding-IsPort}
use lab_in_a_box.Validate.Clean.{definition_findings-none}

abbrev printed : Value → String
printed v = "value"

abbrev equal : Value → Value → Bool
equal v w = false

abbrev matching : String → String → Bool
matching pattern subject = true

abbrev web_port : Field
web_port = record {
  name = "web_port";
  kind = "port";
  choices = [];
  pattern_text = "";
  low = none;
  high = none;
}

value_finding-IsPort_example :
    (value_finding printed equal matching web_port (number (pos 8080)) "common.web_port" ≡ none)
    ↔ IsPort (as_int (number (pos 8080)))
unfolding is_absent is_placeholder
value_finding-IsPort_example =
    value_finding-IsPort printed equal matching web_port (number (pos 8080)) "common.web_port" refl
      refl refl refl refl

abbrev schema : Sections
schema = ("nodes", group (node_then (declared web_port) no_nodes)) ∷ []

abbrev one_node : Fields
one_node = field_then "web_port" (number (pos 8080)) no_fields

abbrev one_lab : Config
one_lab = ("nodes", object (field_then "n1" (object one_node) no_fields)) ∷ []

definition_findings-none_example :
    value_finding printed equal matching web_port (number (pos 8080)) "nodes.n1.web_port" ≡ none
unfolding definition_findings section_findings value_finding section_fields walk is_absent
    is_placeholder as_int
definition_findings-none_example =
    definition_findings-none printed equal matching one_lab schema [] refl "nodes" (inl refl)
      (field_then "n1" (object one_node) no_fields) "n1" one_node refl refl "web_port" web_port
      (number (pos 8080)) refl refl refl
