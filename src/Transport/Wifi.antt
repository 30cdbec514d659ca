-- ===== src/Transport/Wifi.antt =====
-- WiFiTransport of transport/wifi.py, by what the socket does.
use flipperzero_mcp.Base.{
  [], some, none, Option, ◌&&◌, not, false, true, Bool, ◌∙◌, sym, ap, refl, ◌≡◌, ◌≢◌, suc, zero, ℕ,
  Bytes, if◌then◌else◌,
}
use flipperzero_mcp.Action.{F, pure, raise, cancel}
use flipperzero_mcp.Link.{Exn, cancelled, raised, Result, ok, is_os_error}

-- `has_reader` and `has_writer` are `self.reader` and `self.writer` being there; `is_closing` is the
-- writer's.
pub record Wifi : Type 0 where
  pub connected : Bool
  pub has_reader : Bool
  pub has_writer : Bool
  pub is_closing : Bool
  pub rx_buffer : Bytes

abbrev opened : Wifi → Wifi
opened t = record t {
  connected = true;
  has_reader = true;
  has_writer = true;
  is_closing = false;
  rx_buffer = [];
}

-- The end of `_drain_socket_buffer`: what it read is thrown away, and an OSError ends it.
after_drain : Result (Unit {0}) → F Wifi Bool
after_drain (ok tt) = pure true
after_drain (raised e) = if is_os_error e then pure true else raise e
after_drain cancelled = cancel

-- `connect`, by how `open_connection` under its timeout ends, and the reads of the drain.
unfoldable pub connect : Result (Unit {0}) → Result (Unit {0}) → F Wifi Bool
unfolding after_drain
connect (ok tt) drain t = after_drain drain (opened t)
connect (raised e) drain t =
    if is_os_error e then (ok false, record t { connected = false }) else (raised e, t)
connect cancelled drain t = (cancelled, t)

abbrev without_streams : Wifi → Wifi
without_streams t = record t { has_reader = false; has_writer = false; is_closing = false }

-- Past the `try` of `disconnect`, whose `finally` has run: `connected` is reset if nothing was raised.
after_close : Result (Unit {0}) → F Wifi (Unit {0})
after_close (ok tt) t = (ok tt, record t { connected = false })
after_close (raised e) t = (raised e, t)
after_close cancelled t = (cancelled, t)

-- `disconnect`, by how closing the writer ends, if there is one.
unfoldable pub disconnect : Result (Unit {0}) → F Wifi (Unit {0})
unfolding after_close
disconnect closes t =
    if t.has_writer
    then after_close closes (without_streams t)
    else after_close (ok tt) (without_streams t)

-- `send`, by how the write and the drain of the writer end.
unfoldable pub send : Result (Unit {0}) → F Wifi (Unit {0})
send writes t = if t.has_writer then (writes, t) else (raised Exn.runtime_error, t)

-- Past the read: a timeout is no data, and a lost connection is too, but is noted.
after_read : Result Bytes → F Wifi Bytes
after_read (ok bytes) t = (ok bytes, t)
after_read (raised Exn.timeout_error) t = (ok [], t)
after_read (raised Exn.connection_lost) t = (ok [], record t { connected = false })
after_read (raised e) t = (raised e, t)
after_read cancelled t = (cancelled, t)

-- A timeout of 0 reads nothing.
timed_read : Option ℕ → Result Bytes → F Wifi Bytes
timed_read none read = after_read read
timed_read (some zero) read = pure []
timed_read (some (suc n)) read = after_read read

-- `receive`, by how the read ends.
unfoldable pub receive : Option ℕ → Result Bytes → F Wifi Bytes
unfolding after_read timed_read
receive timeout read t =
    if t.has_reader then timed_read timeout read t else (raised Exn.runtime_error, t)

-- `is_connected`
abbrev pub is_connected : Wifi → Bool
is_connected t = t.connected && t.has_writer && not t.is_closing

-- One operation, whatever the socket does in it and however it ends.
pub data Step : Wifi → Wifi → Type 0 where
  connects : (r d : Result (Unit {0})) (t : Wifi) → Step t (connect r d t).1
  disconnects : (r : Result (Unit {0})) (t : Wifi) → Step t (disconnect r t).1
  sends : (r : Result (Unit {0})) (t : Wifi) → Step t (send r t).1
  receives : (n : Option ℕ) (r : Result Bytes) (t : Wifi) → Step t (receive n r t).1
  -- the writer starts to close by itself
  closes : (t : Wifi) → Step t (record t { is_closing = true })

-- A transport as `__init__` leaves it.
pub record IsNew (t : Wifi) : Type 0 where
  pub not_connected : t.connected ≡ false
  pub no_reader : t.has_reader ≡ false
  pub no_writer : t.has_writer ≡ false

pub data Reach : Wifi → Type 0 where
  start : {t : Wifi} → IsNew t → Reach t
  next : {t t' : Wifi} → Reach t → Step t t' → Reach t'

-- Reader and writer are there together.
abbrev HasBoth : Wifi → Type 0
HasBoth t = t.has_reader ≡ t.has_writer

drain-HasBoth : (r : Result (Unit {0})) (t : Wifi) → HasBoth t → HasBoth (after_drain r t).1
unfolding after_drain
drain-HasBoth (ok tt) t h = h
drain-HasBoth (raised e) t h = by_class (is_os_error e)
  where
    by_class : (b : Bool) → HasBoth ((if◌then◌else◌ {A = F Wifi Bool} b (pure true) (raise e)) t).1
    by_class true = h
    by_class false = h
drain-HasBoth cancelled t h = h

Step-HasBoth : {t t' : Wifi} → Step t t' → HasBoth t → HasBoth t'
unfolding connect disconnect send receive after_close timed_read after_read
Step-HasBoth (connects (ok x) d t) h = drain-HasBoth d (opened t) refl
Step-HasBoth (connects (raised e) d t) h = by_class (is_os_error e)
  where
    by_class :
        (b : Bool)
        → HasBoth
            (if◌then◌else◌ {A = Result Bool × Wifi} b
              (ok false, record t { connected = false })
              (raised e, t)).1
    by_class true = h
    by_class false = h
Step-HasBoth (connects cancelled d t) h = h
Step-HasBoth (disconnects r t) h = by_writer t.has_writer r
  where
    closed : (r : Result (Unit {0})) → HasBoth (after_close r (without_streams t)).1
    closed (ok tt) = refl
    closed (raised e) = refl
    closed cancelled = refl

    by_writer :
        (b : Bool) (r : Result (Unit {0}))
        → HasBoth
            (if◌then◌else◌ {A = Result (Unit {0}) × Wifi} b
              (after_close r (without_streams t))
              (after_close (ok tt) (without_streams t))).1
    by_writer true r = closed r
    by_writer false r = refl
Step-HasBoth (sends r t) h = by_writer t.has_writer
  where
    by_writer :
        (b : Bool)
        → HasBoth
            (if◌then◌else◌ {A = Result (Unit {0}) × Wifi} b (r, t) (raised Exn.runtime_error, t)).1
    by_writer true = h
    by_writer false = h
Step-HasBoth (receives n r t) h = by_reader t.has_reader n
  where
    read : (r : Result Bytes) → HasBoth (after_read r t).1
    read (ok bytes) = h
    read (raised Exn.timeout_error) = h
    read (raised Exn.connection_lost) = h
    read (raised _) = h
    read cancelled = h

    by_reader :
        (b : Bool) (n : Option ℕ)
        → HasBoth
            (if◌then◌else◌ {A = Result Bytes × Wifi} b
              (timed_read n r t)
              (raised Exn.runtime_error, t)).1
    by_reader true none = read r
    by_reader true (some zero) = h
    by_reader true (some (suc m)) = read r
    by_reader false n = h
Step-HasBoth (closes t) h = h

Reach-HasBoth : {t : Wifi} → Reach t → HasBoth t
Reach-HasBoth (start n) = n.no_reader ∙ sym n.no_writer
Reach-HasBoth (next r step) = Step-HasBoth step (Reach-HasBoth r)

-- Whatever the timeout is, but for 0, the read is made.
timed_read-after :
    (timeout : Option ℕ) (read : Result Bytes) (t : Wifi)
    → timeout ≢ some 0
    → timed_read timeout read t ≡ after_read read t
unfolding timed_read
timed_read-after none read t n = refl
timed_read-after (some zero) read t n = absurd (n refl)
timed_read-after (some (suc m)) read t n = refl

if_true : {A : Type 0} (b : Bool) (x y : A) → b ≡ true → (if b then x else y) ≡ x
if_true true x y e = refl
if_true false x y e = cc e

receive-after :
    (timeout : Option ℕ) (read : Result Bytes) (t : Wifi)
    → t.has_reader ≡ true
    → timeout ≢ some 0
    → receive timeout read t ≡ after_read read t
unfolding receive
receive-after timeout read t e n =
    if_true t.has_reader (timed_read timeout read t) (raised Exn.runtime_error, t) e
    ∙ timed_read-after timeout read t n

-- After any sequence of operations, however each of them ended, a transport that counts as connected
-- can be written to, and `send` ends as its write does. It can be read from too, with any timeout but
-- 0 and without one: `receive` returns just the bytes of its read; nothing, and no change, if the read
-- runs out of time; and nothing if the connection is lost, after which it does not count as connected.
pub Reach-usable :
    {t : Wifi} (writes : Result (Unit {0})) (timeout : Option ℕ) (bytes : Bytes)
    → Reach t
    → is_connected t ≡ true
    → timeout ≢ some 0
    → (send writes t ≡ (writes, t))
      × (receive timeout (ok bytes) t ≡ (ok bytes, t))
      × (receive timeout (raised Exn.timeout_error) t ≡ (ok [], t))
      × (receive timeout (raised Exn.connection_lost) t ≡ (ok [], record t { connected = false }))
      × (is_connected (receive timeout (raised Exn.connection_lost) t).1 ≡ false)
unfolding send after_read
Reach-usable {t = t} writes timeout bytes r h n =
    let both = streams t.connected t.has_writer t.is_closing h in
    let reader = Reach-HasBoth r ∙ both in
    let lost = receive-after timeout (raised Exn.connection_lost) t reader n in
    (
      if_true t.has_writer (writes, t) (raised Exn.runtime_error, t) both,
      receive-after timeout (ok bytes) t reader n,
      receive-after timeout (raised Exn.timeout_error) t reader n,
      lost,
      ap (λ x. is_connected x.1) lost,
    )
  where
    streams :
        (connected writer closing : Bool)
        → (connected && writer && not closing) ≡ true
        → writer ≡ true
    streams true true closing h = refl
    streams true false closing h = cc h
    streams false writer closing h = cc h
