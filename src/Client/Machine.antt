-- ===== src/Client/Machine.antt =====
-- What a client promises to those who call it: a machine with few states, which every operation of
-- FlipperClient follows.
use flipperzero_mcp.Rpc.Session.{send_stop_session, ensure_rpc_session_started}
use flipperzero_mcp.Rpc.Storage.{storage_info}
use mathlib.Core.Path.{subst}
use flipperzero_mcp.Link.{Exn, cancelled, raised, ok, Result, Link}
use flipperzero_mcp.Base.{
  some, none, Option, false, true, Bool, inr, inl, sym, refl, ◌≡◌, ℕ, codes, Text, Bytes,
  if◌then◌else◌,
}
use flipperzero_mcp.Client.{
  exception, Client, LinkMode, unknown, cli, rpc, connect, disconnect, close_after, caught, guarded,
  is_os_or_runtime, enter_rpc, enter_cli, switched, check_sd_card_available, cached_or_asked,
  remember,
}
use flipperzero_mcp.Client.Reach.{
  Step, connects, disconnects, enters_rpc, enters_cli, checks_sd, executes, reports, informs,
  elsewhere,
}
use flipperzero_mcp.Client.Health.{get_connection_health}
use flipperzero_mcp.Client.Info
use flipperzero_mcp.Client.Unmoved.{
  IsUnmoved, get_connection_health-IsUnmoved, get_device_info-IsUnmoved,
}
use flipperzero_mcp.Cli.Risk.{Risk, Case, classify}
use flipperzero_mcp.Cli.Exec.{cli_exec, cli_exchange, after_stop, relink, converse}
use flipperzero_mcp.Cli.Exec.Gate.{cli_exec-Permits}
use flipperzero_mcp.Proto.{Codec}

-- The link is down, or up in a mode.
pub data Connection : Type 0 where
  down : Connection
  up : LinkMode → Connection

abbrev pub connection : Client → Connection
connection cl = if cl.has_rpc then up cl.mode else down

pub data Operation : Type 0 where
  connecting disconnecting entering_rpc entering_cli checking executing reporting informing
        waiting :
      Operation

-- Any operation may leave the state as it is: it failed, or had nothing to do.
pub data Moves : Operation → Connection → Connection → Type 0 where
  stays : {o : Operation} {s : Connection} → Moves o s s
  opens : {s : Connection} → Moves connecting s (up unknown)
  closes : {s : Connection} → Moves disconnecting s down
  to_rpc : {m : LinkMode} → Moves entering_rpc (up m) (up rpc)
  to_cli : {m : LinkMode} → Moves entering_cli (up m) (up cli)
  runs : {m : LinkMode} → Moves executing (up m) (up cli)

module _ ⦃c : Codec⦄ ⦃k : Case⦄ where
  abbrev pub operation : {cl cl' : Client} → Step cl cl' → Operation
  operation (connects r cl) = connecting
  operation (disconnects r cl) = disconnecting
  operation (enters_rpc cl) = entering_rpc
  operation (enters_cli cl) = entering_cli
  operation (checks_sd cl) = checking
  operation (executes command timeout a t cl) = executing
  operation (reports probe transport cl) = reporting
  operation (informs cl) = informing
  operation (elsewhere w cl) = waiting

  -- The state of the machine is that of another client.
  abbrev Keeps : Client → Client → Type 0
  Keeps cl cl' = connection cl' ≡ connection cl

  stays_at : {o : Operation} {s t : Connection} → t ≡ s → Moves o s t
  stays_at {o = o} {s = s} e = subst (Moves o s) (sym e) stays

  IsUnmoved-connection : (cl u : Client) → IsUnmoved cl u → Keeps cl u
  IsUnmoved-connection cl u p = rw (p.1, p.2) refl

  caught-Keeps : {A : Type 0} (e : Exn) (a : A) (cl : Client) → Keeps cl (caught e a cl).1
  caught-Keeps {A = A} e a cl = by_class (is_os_or_runtime e)
    where
      by_class :
          (b : Bool)
          → Keeps cl
              (if◌then◌else◌ {A = Result A × Client} b
                (ok a, record cl { last_connection_error = some (exception e) })
                (raised e, cl)).1
      by_class true = refl
      by_class false = refl

  connect-Moves :
      (r : Result Bool) (cl : Client)
      → Moves connecting (connection cl) (connection (connect r cl).1)
  unfolding connect
  connect-Moves (ok true) cl = opens
  connect-Moves (ok false) cl = stays
  connect-Moves (raised e) cl = stays_at (caught-Keeps e false cl)
  connect-Moves cancelled cl = stays

  close_after-Moves :
      (r : Result (Unit {0})) (s : Connection) (cl : Client)
      → connection cl ≡ s
      → Moves disconnecting s (connection (close_after (r, cl)).1)
  unfolding close_after
  close_after-Moves (ok tt) s cl e = closes
  close_after-Moves (raised x) s cl e = subst (Moves disconnecting s) (sym e) stays
  close_after-Moves cancelled s cl e = subst (Moves disconnecting s) (sym e) stays

  disconnect-Moves :
      (r : Result (Unit {0})) (cl : Client)
      → Moves disconnecting (connection cl) (connection (disconnect r cl).1)
  unfolding disconnect
  disconnect-Moves (ok x) cl = close_after-Moves (ok tt) (connection cl) cl refl
  disconnect-Moves (raised e) cl =
      close_after-Moves (caught e tt cl).0 (connection cl) (caught e tt cl).1 (caught-Keeps e tt cl)
  disconnect-Moves cancelled cl = stays

  -- A switch of the mode, from a client that has a session layer.
  switched-Moves :
      (o : Operation) (to : LinkMode) (cl : Client) (b : Bool) (r : Result (Unit {0}) × Link)
      → ((m : LinkMode) → Moves o (up m) (up to))
      → cl.has_rpc ≡ b
      → Moves o (connection cl) (
          connection
            (if◌then◌else◌ {A = Result LinkMode × Client} b (switched to cl r) (ok cl.mode, cl)).1)
  unfolding switched
  switched-Moves o to cl false r move e = stays
  switched-Moves o to cl true (ok x, w) move e =
      subst (λ b. Moves o (if b then up cl.mode else down) (if b then up to else down)) (sym e)
        (move cl.mode)
  switched-Moves o to cl true (raised x, w) move e = stays
  switched-Moves o to cl true (cancelled, w) move e = stays

  remember-Keeps :
      (cl : Client) (r : Result (Option (ℕ × ℕ))) (u : Client)
      → Keeps cl u
      → Keeps cl (remember (r, u)).1
  unfolding remember
  remember-Keeps cl (ok info) u e = e
  remember-Keeps cl (raised x) u e = e
  remember-Keeps cl cancelled u e = e

  guarded-Keeps :
      {A : Type 0} (a : A) (cl : Client) (r : Result A × Link) → Keeps cl (guarded a cl r).1
  guarded-Keeps a cl (ok b, w) = refl
  guarded-Keeps a cl (raised e, w) = caught-Keeps e a (record cl { link = w })
  guarded-Keeps a cl (cancelled, w) = refl

  cached_or_asked-Keeps : (o : Option Bool) (cl : Client) → Keeps cl (cached_or_asked o cl).1
  unfolding cached_or_asked
  cached_or_asked-Keeps (some b) cl = refl
  cached_or_asked-Keeps none cl = by_rpc cl.has_rpc
    where
      asked : Result (Option (ℕ × ℕ)) × Client
      asked = guarded none cl (storage_info (codes "/ext") cl.link)

      by_rpc :
          (b : Bool)
          → Keeps cl
              (if◌then◌else◌ {A = Result Bool × Client} b
                (remember asked)
                (remember (ok none, cl))).1
      by_rpc true =
          remember-Keeps cl asked.0 asked.1
            (guarded-Keeps none cl (storage_info (codes "/ext") cl.link))
      by_rpc false = remember-Keeps cl (ok none) cl refl

  relink-Moves :
      (cl : Client) (r : Result (Bytes × Bool) × Link) (risk : Risk)
      → cl.has_rpc ≡ true
      → Moves executing (connection cl) (connection (relink (record cl { mode = cli }) r risk).1)
  unfolding relink
  relink-Moves cl r risk e = by_end r
    where
      in_cli :
          (w : Link)
          → Moves executing (connection cl) (connection (record cl { link = w; mode = cli }))
      in_cli w =
          subst (λ b. Moves executing (if b then up cl.mode else down) (if b then up cli else down))
            (sym e) runs

      by_end :
          (r : Result (Bytes × Bool) × Link)
          → Moves executing
              (connection cl)
              (connection (relink (record cl { mode = cli }) r risk).1)
      by_end (ok b, w) = in_cli w
      by_end (raised x, w) = in_cli w
      by_end (cancelled, w) = in_cli w

  exchange-Moves :
      (command : Text) (timeout : ℕ) (risk : Risk) (cl : Client) (r : Result (Unit {0}) × Link)
      → cl.has_rpc ≡ true
      → Moves executing (connection cl) (connection (after_stop command timeout risk cl r).1)
  unfolding after_stop
  exchange-Moves command timeout risk cl (ok x, w) e =
      relink-Moves cl (converse command timeout w) risk e
  exchange-Moves command timeout risk cl (raised x, w) e = stays
  exchange-Moves command timeout risk cl (cancelled, w) e = stays

  cli_exec-Moves :
      (command : Text) (timeout : ℕ) (a t : Bool) (cl : Client)
      → Moves executing (connection cl) (connection (cli_exec command timeout a t cl).1)
  unfolding cli_exchange
  cli_exec-Moves command timeout a t cl = elim (cli_exec-Permits command timeout a t cl) [
    | inl (permitted, e) ↦
        subst (λ r. Moves executing (connection cl) (connection r.1)) (sym e)
          (exchange-Moves command timeout (classify command) cl (send_stop_session cl.link)
            permitted.0)
    | inr (x, e) ↦ subst (λ r. Moves executing (connection cl) (connection r.1)) (sym e) stays
  ]

  -- Every operation of a client, however it ends, is a move of the machine: only a connect brings the
  -- link up, and in no known mode; only a disconnect brings it down; and the mode changes to RPC only
  -- by `enter_rpc`, and to the CLI only by `enter_cli` and `cli_exec`, while the link is up.
  pub Step-Moves :
      {cl cl' : Client} (step : Step cl cl')
      → Moves (operation step) (connection cl) (connection cl')
  unfolding enter_rpc enter_cli check_sd_card_available
  Step-Moves (connects r cl) = connect-Moves r cl
  Step-Moves (disconnects r cl) = disconnect-Moves r cl
  Step-Moves (enters_rpc cl) =
      switched-Moves entering_rpc rpc cl cl.has_rpc (ensure_rpc_session_started cl.link)
        (λ m. to_rpc) refl
  Step-Moves (enters_cli cl) =
      switched-Moves entering_cli cli cl cl.has_rpc (send_stop_session cl.link) (λ m. to_cli) refl
  Step-Moves (checks_sd cl) = stays_at (cached_or_asked-Keeps cl.sd_card_available cl)
  Step-Moves (executes command timeout a t cl) = cli_exec-Moves command timeout a t cl
  Step-Moves (reports probe transport cl) = stays_at (
      IsUnmoved-connection cl (get_connection_health probe transport cl).1
        (get_connection_health-IsUnmoved probe transport cl))
  Step-Moves (informs cl) = stays_at (
      IsUnmoved-connection cl (flipperzero_mcp.Client.Info.get_device_info cl).1
        (get_device_info-IsUnmoved cl))
  Step-Moves (elsewhere w cl) = stays
