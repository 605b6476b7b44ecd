-- ===== src/Desktop/Shortcuts/Order.antt =====
-- What `to_gtk_accelerator` makes of the names in a shortcut, in terms of which names there are.
use copywraith.Common.{Bool, true, false, ◌||◌, Option, none, some, List, any, find, is_none, map}
use copywraith.Common.Text.{Text, lower}
use copywraith.Common.Outcome.{Outcome, err, ◌>>=◌}
use copywraith.Desktop.Shortcuts.{
  Modifiers, Modifier, control, alternate, shifted, super_key, modifier_of, AcceleratorError,
  unsupported_modifier,
}

abbrev is_modifier : Modifier → Option Modifier → Bool
is_modifier control (some control) = true
is_modifier alternate (some alternate) = true
is_modifier shifted (some shifted) = true
is_modifier super_key (some super_key) = true
is_modifier _ _ = false

-- Whether some name stands for a modifier.
abbrev pub has : Modifier → List Text → Bool
has k names = any (λ name. is_modifier k (modifier_of name)) names

-- The first name that stands for no modifier.
abbrev pub first_unknown : List Text → Option Text
first_unknown names = find (λ name. is_none (modifier_of name)) names

abbrev with_names : Modifiers → List Text → Modifiers
with_names m names = record {
  ctrl = m.ctrl || has control names;
  alt = m.alt || has alternate names;
  shift = m.shift || has shifted names;
  super = m.super || has super_key names;
}

abbrev pub unless_unknown {ℓ} :
    {A : Type ℓ} → Option Text → Outcome AcceleratorError A → Outcome AcceleratorError A
unless_unknown none o = o
unless_unknown (some name) o = err (unsupported_modifier (map lower name))
