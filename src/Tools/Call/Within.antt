-- ===== src/Tools/Call/Within.antt =====
-- No sequence of tool calls sends what the configuration does not permit.
use flipperzero_mcp.Rpc.ReadOnly.{ping-OnlyReads}
use flipperzero_mcp.Rpc.System.{ping}
use flipperzero_mcp.Rpc.Session.{send_stop_session}
use flipperzero_mcp.Tools.Change.{changed}
use flipperzero_mcp.Link.{Exn, cancelled, raised, Link, ok, M, Result}
use mathlib.Core.Path.{subst}
use flipperzero_mcp.Config.{FlipperConfig}
use flipperzero_mcp.Cli.Risk.{Risk, classify, Case}
use flipperzero_mcp.Proto.{Codec}
use flipperzero_mcp.Base.{
  List, some, none, Option, ◌&&◌, false, true, Bool, inr, inl, ◌⊎◌, sym, refl, ◌≡◌, ℕ, Text, Bytes,
  All, Bool-cases, if◌then◌else◌,
}
use flipperzero_mcp.Action.{F}
use flipperzero_mcp.Action.Keeps.{Keeps, Keeps-pure, Keeps-raise, Keeps-if, Keeps-bind}
use flipperzero_mcp.Client.{is_os_or_runtime, exception, LinkMode, Client, guarded, caught}
use flipperzero_mcp.Tools.Common.{
  relinked, Attempt, get_rpc, ensure_connected, on_link, requested, classified, classified_end,
  require_write_tools,
}
use flipperzero_mcp.Tools.Common.Sent.{HasSent, get_rpc-HasSent, ensure_connected-HasSent}
use flipperzero_mcp.Tools.Permitted.{
  IsPermitted, Obeys, OnlyReads-Obeys, converse-Obeys, send_stop_session-Obeys,
}
use flipperzero_mcp.Cli.Exec.{cli_exec, cli_exchange, after_stop, relink, converse}
use flipperzero_mcp.Cli.Exec.Gate.{cli_exec-Permits}
use flipperzero_mcp.Client.Health.{
  health_probe, is_echo, get_connection_health, probed, with_transport, asked, note_unanswered,
}

module _ ⦃c : Codec⦄ ⦃k : Case⦄ (config : FlipperConfig) where
  -- All that was sent is permitted.
  abbrev pub IsWithin : Client → Type 0
  IsWithin cl = All (IsPermitted config) cl.link.sent

  pub HasSent-IsWithin :
      {A : Type 0} (m : F Client A) → ((l : List Bytes) → Keeps (HasSent l) m) → Keeps IsWithin m
  HasSent-IsWithin m p = record {
    at = λ cl h. subst (All (IsPermitted config)) (sym ((p cl.link.sent).at cl refl)) h;
  }

  relinked-IsWithin :
      {A : Type 0} (cl : Client) (r : Result A × Link)
      → All (IsPermitted config) r.1.sent
      → IsWithin (relinked cl r).1
  relinked-IsWithin cl (r, w) h = h

  pub on_link-IsWithin : {A : Type 0} {m : M A} → Obeys config m → Keeps IsWithin (on_link m)
  unfolding on_link
  on_link-IsWithin {m = m} p = record {
    at = λ cl h. relinked-IsWithin cl (m cl.link) (p.at cl.link h);
  }

  pub classified_end-IsWithin :
      {A : Type 0} (r : Result A × Client) → IsWithin r.1 → IsWithin (classified_end r).1
  unfolding classified_end
  classified_end-IsWithin (ok a, cl) h = h
  classified_end-IsWithin (raised e, cl) h = h
  classified_end-IsWithin (cancelled, cl) h = h

  pub classified-IsWithin :
      {A : Type 0} {m : F Client A} → Keeps IsWithin m → Keeps IsWithin (classified m)
  classified-IsWithin {m = m} p = record { at = λ cl h. classified_end-IsWithin (m cl) (p.at cl h) }

  pub get_rpc-IsWithin : (attempt : Attempt) → Keeps IsWithin (get_rpc attempt)
  get_rpc-IsWithin attempt = HasSent-IsWithin (get_rpc attempt) (λ l. get_rpc-HasSent attempt)

  pub connected-IsWithin : (attempt : Attempt) → Keeps IsWithin (ensure_connected attempt)
  connected-IsWithin attempt =
      HasSent-IsWithin (ensure_connected attempt) (λ l. ensure_connected-HasSent attempt)

  pub requested-IsWithin :
      {A : Type 0} (attempt : Attempt) {m : M A}
      → Obeys config m
      → Keeps IsWithin (requested attempt m)
  unfolding requested
  requested-IsWithin attempt p =
      classified-IsWithin (Keeps-bind _ _ (get_rpc-IsWithin attempt) λ _. on_link-IsWithin p)

  -- The tools that change the device with one request.
  pub changed-IsWithin :
      (attempt : Attempt) {m : M Bool}
      → (config.enable_write_tools ≡ true → Obeys config m)
      → Keeps IsWithin (changed config attempt m)
  unfolding changed require_write_tools
  changed-IsWithin attempt p = elim (Bool-cases config.enable_write_tools) [
    | inl on ↦
        Keeps-bind _ _
          (Keeps-bind _ _ (Keeps-if config.enable_write_tools _ _ (Keeps-pure tt) (Keeps-raise _))
            λ _. requested-IsWithin attempt (p on))
          λ accepted. Keeps-if accepted _ _ (Keeps-pure tt) (Keeps-raise _)
    | inr off ↦ rw off (record { at = λ cl h. h })
  ]

  relink-IsWithin :
      (cl : Client) (r : Result (Bytes × Bool) × Link) (risk : Risk)
      → All (IsPermitted config) r.1.sent
      → IsWithin (relink cl r risk).1
  unfolding relink
  relink-IsWithin cl (ok b, w) risk h = h
  relink-IsWithin cl (raised e, w) risk h = h
  relink-IsWithin cl (cancelled, w) risk h = h

  after_stop-IsWithin :
      (command : Text) (timeout : ℕ) (cl : Client) (r : Result (Unit {0}) × Link)
      → Obeys config (converse command timeout)
      → All (IsPermitted config) r.1.sent
      → IsWithin (after_stop command timeout (classify command) cl r).1
  unfolding after_stop
  after_stop-IsWithin command timeout cl (ok tt, w) p h =
      relink-IsWithin (record cl { mode = LinkMode.cli }) (converse command timeout w) _ (p.at w h)
  after_stop-IsWithin command timeout cl (raised e, w) p h = h
  after_stop-IsWithin command timeout cl (cancelled, w) p h = h

  pub cli_exec-IsWithin :
      (command : Text) (timeout : ℕ) (a t : Bool)
      → (t ≡ true → config.enable_tx_tools ≡ true)
      → Keeps IsWithin (cli_exec command timeout a t)
  unfolding cli_exchange
  cli_exec-IsWithin command timeout a t on = record {
    at = λ cl h. elim (cli_exec-Permits command timeout a t cl) [
      | inl (permitted, e) ↦
          subst (λ r. IsWithin r.1) (sym e)
            (after_stop-IsWithin command timeout cl (send_stop_session cl.link)
              (converse-Obeys config command timeout (gate permitted.3))
              ((send_stop_session-Obeys config).at cl.link h))
      | inr (x, e) ↦ subst (λ r. IsWithin r.1) (sym e) h
    ];
  }
    where
      gate :
          ((classify command).gated ≡ false) ⊎ ((t ≡ true) × (a ≡ true))
          → ((classify command).gated ≡ false) ⊎ (config.enable_tx_tools ≡ true)
      gate (inl e) = inl e
      gate (inr e) = inr (on e.0)

  -- The health report, with its probe.
  caught-IsWithin :
      {A : Type 0} (e : Exn) (a : A) (cl : Client) → IsWithin cl → IsWithin (caught e a cl).1
  caught-IsWithin {A = A} e a cl h = by_class (is_os_or_runtime e)
    where
      by_class :
          (b : Bool)
          → IsWithin
              (if◌then◌else◌ {A = Result A × Client} b
                (ok a, record cl { last_connection_error = some (exception e) })
                (raised e, cl)).1
      by_class true = h
      by_class false = h

  guarded-IsWithin :
      {A : Type 0} (a : A) (cl : Client) (r : Result A × Link)
      → All (IsPermitted config) r.1.sent
      → IsWithin (guarded a cl r).1
  guarded-IsWithin a cl (ok b, w) h = h
  guarded-IsWithin a cl (raised e, w) h = caught-IsWithin e a (record cl { link = w }) h
  guarded-IsWithin a cl (cancelled, w) h = h

  noted-IsWithin : (b : Bool) (cl : Client) → IsWithin cl → IsWithin (note_unanswered b cl)
  noted-IsWithin true cl h = h
  noted-IsWithin false cl h = h

  probed-IsWithin :
      (t : Bool) (r : Result (Option Bytes) × Client) → IsWithin r.1 → IsWithin (probed t r).1
  unfolding probed
  probed-IsWithin t (ok echoed, cl) h = noted-IsWithin (is_echo echoed) cl h
  probed-IsWithin t (raised e, cl) h = h
  probed-IsWithin t (cancelled, cl) h = h

  transport-IsWithin :
      (probe : Bool) (r : Result Bool × Client) → IsWithin r.1 → IsWithin (with_transport probe r).1
  unfolding with_transport
  transport-IsWithin false (ok t, cl) h = h
  transport-IsWithin true (ok t, cl) h = elim (Bool-cases (t && cl.has_rpc)) [
    | inl y ↦ rw y (
        probed-IsWithin t (guarded none cl (ping health_probe cl.link)) (
          guarded-IsWithin none cl (ping health_probe cl.link)
            ((OnlyReads-Obeys config 11 (ping-OnlyReads health_probe)).at cl.link h)))
    | inr n ↦ rw n h
  ]
  transport-IsWithin probe (raised e, cl) h = h
  transport-IsWithin probe (cancelled, cl) h = h

  pub health-IsWithin :
      (probe : Bool) (transport : Result Bool)
      → Keeps IsWithin (get_connection_health probe transport)
  unfolding get_connection_health asked
  health-IsWithin probe (ok t) = record { at = λ cl h. transport-IsWithin probe (ok t, cl) h }
  health-IsWithin probe (raised e) = record {
    at = λ cl h.
        transport-IsWithin probe ((caught e false cl).0, (caught e false cl).1)
          (caught-IsWithin e false cl h);
  }
  health-IsWithin probe cancelled = record {
    at = λ cl h. transport-IsWithin probe (cancelled, cl) h;
  }
