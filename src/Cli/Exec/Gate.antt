-- ===== src/Cli/Exec/Gate.antt =====
-- The guards of `cli_exec`.
use flipperzero_mcp.Proto.{Codec}
use flipperzero_mcp.Cli.Exec.{cli_exchange, shell_chaining, is_gate_shut, has_any, cli_exec}
use flipperzero_mcp.Client.{Client}
use flipperzero_mcp.Cli.Risk.{classify, Risk, Case}
use flipperzero_mcp.Link.{
  flipper_cli_refused, flipper_cli_unavailable, flipper_not_connected, Exn, raised,
}
use flipperzero_mcp.Base.{
  ◌||◌, not, false, true, Bool, inr, inl, ◌⊎◌, refl, ◌≡◌, ℕ, Text, Bool-cases,
}

module _ ⦃k : Case⦄ where
  -- There is a session layer, the transport carries the CLI, the line is one command, and both gates
  -- are open for a command that the denylist names.
  abbrev pub Permits : Text → Bool → Bool → Client → Type 0
  Permits command accept_responsibility tx_tools_enabled cl =
      (cl.has_rpc ≡ true)
      × (cl.supports_cli_text_mode ≡ true)
      × (has_any shell_chaining command ≡ false)
      × (((classify command).gated ≡ false)
          ⊎ ((tx_tools_enabled ≡ true) × (accept_responsibility ≡ true)))

  gate_open :
      (risk : Risk) (a t : Bool)
      → is_gate_shut risk a t ≡ false
      → (risk.gated ≡ false) ⊎ ((t ≡ true) × (a ≡ true))
  gate_open risk a t h = elim (Bool-cases risk.gated) [
    | inr e ↦ inl e
    | inl e ↦ inr (both a t (rw e at h))
  ]
    where
      both : (a t : Bool) → (not t || not a) ≡ false → (t ≡ true) × (a ≡ true)
      both true true h = (refl, refl)
      both true false h = cc
      both false true h = cc
      both false false h = cc

  -- Either the command is permitted, and `cli_exec` is the exchange with the device, or it raises and
  -- the client and its link are as they were: nothing was sent and no mode changed.
  pub cli_exec-Permits :
      ⦃c : Codec⦄
      → (command : Text) (timeout : ℕ) (accept_responsibility tx_tools_enabled : Bool) (cl : Client)
      → (Permits command accept_responsibility tx_tools_enabled cl
          × (cli_exec command timeout accept_responsibility tx_tools_enabled cl
              ≡ cli_exchange command timeout (classify command) cl))
        ⊎ ((e : Exn) × (cli_exec command timeout accept_responsibility tx_tools_enabled cl
              ≡ (raised e, cl)))
  unfolding cli_exec
  cli_exec-Permits command timeout a t cl = elim (Bool-cases cl.has_rpc) [
    | inr e ↦ inr (flipper_not_connected, rw e)
    | inl e ↦ elim (Bool-cases cl.supports_cli_text_mode) [
      | inr f ↦ inr (flipper_cli_unavailable, rw (e, f))
      | inl f ↦ elim (Bool-cases (has_any shell_chaining command)) [
        | inl g ↦ inr (flipper_cli_refused, rw (e, f, g))
        | inr g ↦ elim (Bool-cases (is_gate_shut (classify command) a t)) [
          | inl h ↦ inr (flipper_cli_refused, rw (e, f, g, h))
          | inr h ↦ inl ((e, f, g, gate_open (classify command) a t h), rw (e, f, g, h))
        ]
      ]
    ]
  ]
