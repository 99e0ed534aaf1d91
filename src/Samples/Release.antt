-- ===== src/Samples/Release.antt =====
-- A version field and the version that an add-on declares.
use lab_in_a_box.Prelude.{◌≡◌, refl}
use lab_in_a_box.Text.{split_on}
use lab_in_a_box.Versions.{matches, normalize}
use lab_in_a_box.Versions.Prefix.{begins, matches-parts}

matches-parts_example :
    matches "v2.13" "--version v2.13.3"
    ≡ begins (split_on 46 (normalize "v2.13")) (split_on 46 (normalize "--version v2.13.3"))
unfolding normalize lab_in_a_box.Text.lstrip lab_in_a_box.Text.rstrip lab_in_a_box.Text.is_space
    lab_in_a_box.Text.is_digit
matches-parts_example = matches-parts "v2.13" "--version v2.13.3" refl
