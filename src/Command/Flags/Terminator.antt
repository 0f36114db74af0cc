-- ===== src/Command/Flags/Terminator.antt =====
-- `reorderArgs` and the terminator of the flags, the argument --.
use sec_compile_option.Base.{All, List, [], ap, false, none, refl, sym, ◌++◌, ◌∙◌, ◌∷◌, ◌≡◌}
use sec_compile_option.Command.Flags.{
  FlagSet, default_settings, parse_flags, parse_loop, parsed, read_arg, reorder_args, reorder_loop,
}
use sec_compile_option.Command.Flags.Items.{
  IsItem, Item, assigned, command_line, flags_of, option, parse_flags_of, parse_targets,
  reorder_items, settings_of, switch, target, targets_of, written,
}
use sec_compile_option.Go.Strings.{Bytes, codes, eq_bytes}

no_targets : (is : List Item) → targets_of is ≡ [] → flags_of is ≡ command_line is
no_targets [] h = refl
no_targets (target p ∷ is) h = absurd (cc)
no_targets (switch n ∷ is) h = ap (λ more. written (switch n) ++ more) (no_targets is h)
no_targets (option n v ∷ is) h = ap (λ more. written (option n v) ++ more) (no_targets is h)
no_targets (assigned n v ∷ is) h = ap (λ more. written (assigned n v) ++ more) (no_targets is h)

at_terminator :
    (fs : FlagSet) (args flags positional : List Bytes)
    → reorder_loop fs false (codes "--" ∷ args) flags positional ≡ flags ++ (positional ++ args)
unfolding reorder_loop eq_bytes
at_terminator fs args flags positional = refl

-- Flags behind a terminator, in front of all targets: `-a -- -b` and the like, with any well-formed
-- flags on both sides of -- and any targets at the end. FlagSet.Parse on these arguments takes all
-- that stands behind -- for targets, but on what `reorderArgs` makes of them it reads the flags
-- behind -- as flags and only the rest as targets.
pub reorder_args-drops_terminator :
    (fs : FlagSet) (is js ts : List Item)
    → All (IsItem fs) is
    → All (IsItem fs) js
    → All (IsItem fs) ts
    → targets_of is ≡ []
    → targets_of js ≡ []
    → (let args = command_line is ++ codes "--" ∷ (command_line js ++ targets_of ts) in
        (parse_flags fs (reorder_args fs args)
          ≡ parsed (settings_of (settings_of default_settings is) js) (targets_of ts))
        × (parse_flags fs args
            ≡ parsed (settings_of default_settings is) (command_line js ++ targets_of ts)))
reorder_args-drops_terminator fs is js ts h k g n m = (reordered, direct)
  where
    reordered :
        parse_flags fs
          (reorder_args fs (command_line is ++ codes "--" ∷ (command_line js ++ targets_of ts)))
        ≡ parsed (settings_of (settings_of default_settings is) js) (targets_of ts)
    reordered =
        let behind = command_line js ++ targets_of ts in
        unfold parse_flags reorder_args in
        (ap (parse_loop fs none default_settings) (
            reorder_items fs is (codes "--" ∷ behind) [] [] h
            ∙ (at_terminator fs behind (flags_of is) (targets_of is)
                ∙ ap (λ front. flags_of is ++ (front ++ behind)) n))
          ∙ (parse_flags_of fs is default_settings behind h
              ∙ (ap
                    (λ front.
                      parse_loop fs none (settings_of default_settings is) (front ++ targets_of ts))
                    (sym (no_targets js m))
                  ∙ (parse_flags_of fs js (settings_of default_settings is) (targets_of ts) k
                      ∙ parse_targets fs ts (settings_of (settings_of default_settings is) js) g))))

    direct :
        parse_flags fs (command_line is ++ codes "--" ∷ (command_line js ++ targets_of ts))
        ≡ parsed (settings_of default_settings is) (command_line js ++ targets_of ts)
    direct =
        let behind = command_line js ++ targets_of ts in
        unfold parse_flags in
        (ap (λ front. parse_loop fs none default_settings (front ++ codes "--" ∷ behind))
            (sym (no_targets is n))
          ∙ (parse_flags_of fs is default_settings (codes "--" ∷ behind) h
              ∙ unfold parse_loop read_arg eq_bytes in refl))
