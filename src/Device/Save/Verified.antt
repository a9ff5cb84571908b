-- ===== src/Device/Save/Verified.antt =====
-- A save that succeeds was confirmed by the switch and checked against what it then shows.
use fastiron_tofu.Prelude.{
  true, ◌≡◌, none, List, Bytes, bytes_eq_iff, get_or, ok, Result-cases, arith, inl, inr, [],
}
use fastiron_tofu.Config.Command.{ParsedCommand, Document}
use fastiron_tofu.Config.Document.{parse, to_string}
use fastiron_tofu.Device.Connection.{Environment, DeviceConfig}
use fastiron_tofu.Device.Save.{
  save_confirmed, write_memory, show_both, normalize, verify_saved, write_config,
}

module _ (parse_command : Bytes → ParsedCommand) where
  -- Both texts are complete configurations, and the same but for display separators.
  pub record IsSameConfig (running startup : Bytes) : Type 0 where
    pub running_document : Document
    pub startup_document : Document
    pub running_parses : parse parse_command running ≡ ok running_document
    pub startup_parses : parse parse_command startup ≡ ok startup_document
    pub same : to_string running_document ≡ to_string startup_document

  normalize-eq-ok :
      (text : Bytes) {r : Bytes}
      → normalize parse_command text ≡ ok r
      → (d : Document) × (parse parse_command text ≡ ok d) × (to_string d ≡ r)
  unfolding normalize
  normalize-eq-ok text h = ground arith

  verify_saved-none :
      (outputs : List Bytes)
      → verify_saved parse_command outputs ≡ none
      → IsSameConfig (get_or outputs 0 []) (get_or outputs 1 [])
  unfolding verify_saved
  verify_saved-none outputs h =
      elim (Result-cases (normalize parse_command (get_or outputs 0 []))) [
        | inr (x, e) ↦ absurd (ground arith)
        | inl (r, e) ↦ elim (Result-cases (normalize parse_command (get_or outputs 1 []))) [
          | inr (y, f) ↦ absurd (ground arith)
          | inl (t, f) ↦
              let (d, p, q) = normalize-eq-ok (get_or outputs 0 []) e in
              let (d', p', q') = normalize-eq-ok (get_or outputs 1 []) f in
              record {
                running_document = d;
                startup_document = d';
                running_parses = p;
                startup_parses = p';
                same = ground (arith, bytes_eq_iff r t);
              }
        ]
      ]

  module _ {World : Type 0} (env : Environment World) (c : DeviceConfig) where
    -- The two sessions of a successful save, from world `w` to world `after`.
    pub record Saved (w after : World) : Type 0 where
      pub written : List Bytes
      pub between : World
      pub shown : List Bytes
      pub write_runs : env.run_cli write_memory w ≡ ((none, written), between)
      pub confirmed : save_confirmed (get_or written 0 []) ≡ true
      pub show_runs : env.run_cli show_both between ≡ ((none, shown), after)
      pub same_config : IsSameConfig (get_or shown 0 []) (get_or shown 1 [])

    -- A save that returns no error has run write memory with a confirmation in its output, has
    -- then shown both configurations in one session, and both parse as complete documents of equal
    -- text.
    pub write_config-Saved :
        (w after : World) → write_config parse_command env c w ≡ (none, after) → Saved w after
    unfolding write_config
    write_config-Saved w after h =
        let first = env.run_cli write_memory w in
        let second = env.run_cli show_both first.1 in
        record {
          written = first.0.1;
          between = first.1;
          shown = second.0.1;
          write_runs = ground arith;
          confirmed = ground arith;
          show_runs = ground arith;
          same_config = verify_saved-none second.0.1 (ground arith);
        }
