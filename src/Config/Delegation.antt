-- ===== src/Config/Delegation.antt =====
-- openwhisk/cgroupFreezer.go: cgroupMountRoot, ownCgroupRelativePath, cgroupBaseDir, newCgroupHandle
-- and readEventField. filepath.Join and what the file system answers are arguments.
use openwhisk_runtime_go.Base.{
  ◌≡◌, ◌⊎◌, ◌↔◌, inl, inr, Bool, Option, none, some, List, [], ◌∷◌, if◌then◌else◌, arith,
  Option-cases, ap, ◌∙◌,
}
use openwhisk_runtime_go.Base.Text.{Bytes, codes, same, same_iff, after_prefix, split, fields}
use openwhisk_runtime_go.CpuStat.Files.{lines_of}
use openwhisk_runtime_go.Proxy.Env.{Variables, getenv}

unfoldable pub cgroup_mount_root : Variables → Bytes
unfolding getenv
cgroup_mount_root environ =
    if same (getenv (codes "CGROUP_MOUNT_ROOT") environ) []
    then codes "/sys/fs/cgroup"
    else getenv (codes "CGROUP_MOUNT_ROOT") environ

-- The loop over the lines of /proc/self/cgroup.
unfoldable own_path : List Bytes → Option Bytes
unfolding after_prefix
own_path [] = none
own_path (line ∷ lines) =
    let rest = own_path lines in
    elim (after_prefix (codes "0::") line) [ some path ↦ some path | none ↦ rest ]

-- On the contents of the file, `none` where it cannot be read.
unfoldable own_cgroup_relative_path : Option Bytes → Option Bytes
unfolding own_path split
own_cgroup_relative_path none = none
own_cgroup_relative_path (some contents) = own_path (lines_of contents)

-- What MkdirAll of the base and Mkdir of the new directory answer.
pub record Directories : Type 0 where
  pub base_made : Bool
  pub made : Bool

module _ (join : Bytes → Bytes → Bytes) where
  unfoldable cgroup_base_dir : Variables → Option Bytes → Option Bytes
  unfolding getenv own_cgroup_relative_path cgroup_mount_root
  cgroup_base_dir environ self =
      if same (getenv (codes "CGROUP_BASE_DIR") environ) []
      then elim (own_cgroup_relative_path self) [
        | none ↦ none
        | some own ↦ some (join (join (cgroup_mount_root environ) own) (codes "ow-activations"))
      ]
      else some (getenv (codes "CGROUP_BASE_DIR") environ)

  -- The path of the new handle.
  unfoldable new_cgroup_handle : Variables → Option Bytes → Directories → Bytes → Option Bytes
  unfolding cgroup_base_dir
  new_cgroup_handle environ self d name = elim (cgroup_base_dir environ self) [
    | none ↦ none
    | some base ↦ if d.base_made then if d.made then some (join base name) else none else none
  ]

-- The value of a line "<field> <value>" for a field.
unfoldable pub value_of : Bytes → List Bytes → Option Bytes
value_of field (k ∷ v ∷ []) = if same k field then some v else none
value_of field _ = none

unfoldable pub first_value : Bytes → List Bytes → Option Bytes
first_value field [] = none
first_value field (line ∷ lines) =
    let rest = first_value field lines in
    elim (value_of field (fields line)) [ some v ↦ some v | none ↦ rest ]

-- On the contents of cgroup.events, `none` where it cannot be read.
unfoldable pub read_event_field : Option Bytes → Bytes → Option Bytes
read_event_field none field = none
read_event_field (some contents) field = first_value field (lines_of contents)

-- The line says that the field has a value, and the first line that says so.
abbrev Says : Bytes → Bytes → Bytes → Type 0
Says field v line = fields line ≡ field ∷ v ∷ []

abbrev pub FirstSays : Bytes → Bytes → List Bytes → Type 0
FirstSays field v [] = ⊥
FirstSays field v (line ∷ lines) =
    Says field v line ⊎ (((w : Bytes) → ¬ Says field w line) × FirstSays field v lines)

value_of-some :
    (field v : Bytes) (parts : List Bytes)
    → (value_of field parts ≡ some v) ↔ (parts ≡ field ∷ v ∷ [])
unfolding value_of
value_of-some field v [] = ground arith
value_of-some field v (k ∷ []) = ground arith
value_of-some field v (k ∷ w ∷ x ∷ rest) = ground arith
value_of-some field v (k ∷ w ∷ []) = ground (arith, same_iff k field, same_iff field field)

some_inj : (a b : Bytes) → some a ≡ some b → a ≡ b
some_inj a b h = cc h

first_value-FirstSays :
    (field v : Bytes) (lines : List Bytes)
    → (first_value field lines ≡ some v) ↔ FirstSays field v lines
unfolding first_value
first_value-FirstSays field v [] = ((λ h. cc h), (λ h. elim h [ ]))
first_value-FirstSays field v (line ∷ lines) =
    let later = first_value-FirstSays field v lines in
    elim (Option-cases (value_of field (fields line))) [
      | inl e ↦
          let unsaid = λ (w : Bytes) (h : Says field w line).
            absurd (ground (arith, e, (value_of-some field w (fields line)).1 h)) in
          rw (e, first_value)
            (
              (λ h. inr (unsaid, later.0 h)),
              λ h. elim h [ inl says ↦ absurd (unsaid v says) | inr (_, rest) ↦ later.1 rest ],
            )
      | inr (w, e) ↦
          let says = (value_of-some field w (fields line)).0 e in
          rw (e, first_value)
            (
              (λ h. inl (says ∙ ap (λ (x : Bytes). field ∷ x ∷ []) (some_inj w v h))),
              λ h. elim h [
                | inl s ↦ ground (arith, says, s)
                | inr (unsaid, rest) ↦ absurd (unsaid w says)
              ],
            )
    ]

-- What readEventField gives for a field of a cgroup.events that can be read: a value exactly if it
-- stands in the first line of two words that begins with the field.
pub read_event_field-FirstSays :
    (contents field v : Bytes)
    → (read_event_field (some contents) field ≡ some v) ↔ FirstSays field v (lines_of contents)
unfolding read_event_field
read_event_field-FirstSays contents field v = first_value-FirstSays field v (lines_of contents)
