-- ===== src/Link/Monad.antt =====
-- Coroutines over one link: the state comes back after an exception too, since what was written
-- stays written. A cancelled await passes through `except Exception` (CancelledError is a
-- BaseException) up to the `asyncio.wait_for` that set the deadline.
use flipperzero_mcp.Base.{
  false, true, ◌≢◌, ◌∙◌, ap, sym, refl, inr, inl, ◌⊎◌, ◌≡◌, ℕ, ◌+◌, Bool, Option, none, some, List,
  Bytes, ltb, if◌then◌else◌, max,
}

-- What a ToolError says, less the texts in it.
pub data Reason : Type 0 where
  -- errors.py
  not_connected : Reason
  timed_out : Reason
  connection_failed : Reason
  protocol_failed : Reason
  cli_unavailable : Reason
  cli_refused : Reason
  flipper_failed : Reason
  unexpected : Reason
  -- tools/
  write_tools_disabled : Reason
  firmware_flash_disabled : Reason
  gated_command : Reason
  out_of_range : Reason
  not_absolute : Reason
  unavailable : Reason
  failed : Reason
  local_file_failed : Reason
  no_digest : Reason
  digest_mismatch : Reason
  no_identity : Reason
  wrong_confirm : Reason
  no_target : Reason
  install_failed : Reason
  no_reconnect : Reason

-- The exceptions that the code raises or meets, by their classes.
pub data Exn : Type 0 where
  os_error : Exn
  -- ConnectionResetError and BrokenPipeError, which are OSErrors
  connection_lost : Exn
  runtime_error : Exn
  value_error : Exn
  -- asyncio.wait_for
  timeout_error : Exn
  -- errors.py
  flipper_not_connected : Exn
  flipper_timeout : Exn
  flipper_connection : Exn
  flipper_protocol : Exn
  flipper_cli_unavailable : Exn
  flipper_cli_refused : Exn
  flipper_error : Exn
  -- firmware/installer.py, a RuntimeError
  flash_error : Exn
  -- firmware/bundles.py, a RuntimeError
  bundle_error : Exn
  key_error : Exn
  type_error : Exn
  attribute_error : Exn
  -- httpx.HTTPError, tarfile.TarError
  http_error : Exn
  tar_error : Exn
  -- fastmcp
  tool_error : Reason → Exn

-- `except OSError`; TimeoutError is one.
abbrev pub is_os_error : Exn → Bool
is_os_error os_error = true
is_os_error connection_lost = true
is_os_error timeout_error = true
is_os_error _ = false

pub data Result {ℓ} (A : Type ℓ) : Type ℓ where
  ok : A → Result A
  raised : Exn → Result A
  cancelled : Result A

-- What one call of `transport.receive` does: it times out, or returns bytes after some time (in
-- milliseconds, at most the timeout), or raises.
pub data Arrival : Type 0 where
  silence : Arrival
  arrive : ℕ → Bytes → Arrival
  broken : Exn → Arrival

-- What one call of `transport.send` does: it takes some time, or raises with nothing sent.
pub data Delivery : Type 0 where
  delivered : ℕ → Delivery
  refused : Exn → Delivery

-- The transport and the fields of ProtobufRPC. `incoming` and `outgoing` are what the environment
-- will do; past their ends nothing arrives and every send succeeds at once. `sent` is the log of
-- the calls of `transport.send`, the oldest first.
pub record Link : Type 0 where
  pub clock : ℕ
  pub deadline : Option ℕ
  pub incoming : List Arrival
  pub outgoing : List Delivery
  pub rx_buffer : Bytes
  pub sent : List Bytes
  -- the transport's name contains "wifi", or it has a host
  pub is_wifi : Bool
  -- FLIPPER_FORCE_START_RPC_SESSION
  pub force_start : Bool
  pub command_id : ℕ
  pub rpc_session_started : Bool
  pub last_negotiation_failure : Option ℕ

abbrev pub M : Type 0 → Type 0
M A = Link → Result A × Link

module _ {A : Type 0} where
  abbrev pub pure : A → M A
  pure a w = (ok a, w)

  abbrev pub raise : Exn → M A
  raise e w = (raised e, w)

module _ {A B : Type 0} where
  abbrev pub continue : Result A × Link → (A → M B) → Result B × Link
  continue (ok a, w) f = f a w
  continue (raised e, w) f = (raised e, w)
  continue (cancelled, w) f = (cancelled, w)

  infixl 5 ◌>>=◌ ◌>>◌
  abbrev pub ◌>>=◌ : M A → (A → M B) → M B
  ◌>>=◌ m f w = continue (m w) f

  abbrev pub ◌>>◌ : M A → M B → M B
  m >> k = m >>= λ _. k

module _ {A : Type 0} where
  -- `try: … except Exception: …`
  abbrev pub handle : Result A × Link → M A → Result A × Link
  handle (ok a, w) h = (ok a, w)
  handle (raised e, w) h = h w
  handle (cancelled, w) h = (cancelled, w)

  abbrev pub except : M A → M A → M A
  except m h w = handle (m w) h

  -- The end of `asyncio.wait_for`: the deadline is lifted, and a cancelled body is a TimeoutError.
  abbrev pub lift_deadline : Result A × Link → Result A × Link
  lift_deadline (ok a, w) = (ok a, record w { deadline = none })
  lift_deadline (raised e, w) = (raised e, record w { deadline = none })
  lift_deadline (cancelled, w) = (raised timeout_error, record w { deadline = none })

  -- `await asyncio.wait_for(m, timeout)`; the code never nests two of them.
  abbrev pub wait_for : ℕ → M A → M A
  wait_for timeout m w = lift_deadline (m (record w { deadline = some (w.clock + timeout) }))

-- An await that takes `dt`: past the deadline of the enclosing `wait_for` it is cancelled there.
unfoldable pub pass_time : ℕ → M (Unit {0})
pass_time dt w = elim w.deadline [
  | none ↦ (ok tt, record w { clock = w.clock + dt })
  | some d ↦
      if ltb d (w.clock + dt)
      then (cancelled, record w { clock = max w.clock d })
      else (ok tt, record w { clock = w.clock + dt })
]

-- `await asyncio.sleep(dt)`
abbrev pub sleep : ℕ → M (Unit {0})
sleep dt = pass_time dt

-- To split on how an action ended, keeping the equation.
pub Outcome-cases :
    {A : Type 0} (p : Result A × Link)
    → ((a : A) × (w : Link) × (p ≡ (ok a, w)))
      ⊎ ((e : Exn) × (w : Link) × (p ≡ (raised e, w)))
      ⊎ ((w : Link) × (p ≡ (cancelled, w)))
Outcome-cases (ok a, w) = inl (a, w, refl)
Outcome-cases (raised e, w) = inr (inl (e, w, refl))
Outcome-cases (cancelled, w) = inr (inr (w, refl))

module _ {A B : Type 0} where
  -- An action that returned has run its first part to a result, and then the rest.
  pub >>=-returned :
      {C : Type 0} (m : M A) (f : A → M B) (w : Link) {b : B} {w' : Link}
      → (m >>= f) w ≡ (ok b, w')
      → ((a : A) (u : Link) → m w ≡ (ok a, u) → f a u ≡ (ok b, w') → C)
      → C
  >>=-returned m f w h k = elim (Outcome-cases (m w)) [
    | inl (a, u, e) ↦ k a u e (rw e at h)
    | inr (inl (x, u, e)) ↦ cc (rw e at h)
    | inr (inr (u, e)) ↦ cc (rw e at h)
  ]

  pub >>=-ok :
      (m : M A) (f : A → M B) {w : Link} {a : A} {u : Link} → m w ≡ (ok a, u) → (m >>= f) w ≡ f a u
  >>=-ok m f e = rw e

-- Two runs that return the same have returned the same value.
pub returned_eq :
    {A : Type 0} {a b : A} {u v : Link} → ◌≡◌ {A = Result A × Link} (ok a, u) (ok b, v) → a ≡ b
returned_eq h = cc h

-- What a `try` whose handler returns `b`, and a `wait_for`, have done when they returned another value.
pub except-returned :
    {A : Type 0} (m : M A) {a b : A} (w : Link) {w' : Link}
    → b ≢ a
    → except m (pure b) w ≡ (ok a, w')
    → m w ≡ (ok a, w')
except-returned m w ne h = elim (Outcome-cases (m w)) [
  | inl (x, u, e) ↦ e ∙ (rw e at h)
  | inr (inl (x, u, e)) ↦ absurd (ne (returned_eq (rw e at h)))
  | inr (inr (u, e)) ↦ cc (rw e at h)
]

-- The value and the link of a run that returned, as facts.
ok-injective :
    {A C : Type 0} {a b : A} {u v : Link}
    → ◌≡◌ {A = Result A × Link} (ok a, u) (ok b, v)
    → (a ≡ b → u ≡ v → C)
    → C
ok-injective h k = k (cc h) (cc h)

pub wait_for-returned :
    {A C : Type 0} (timeout : ℕ) (m : M A) {a : A} (w : Link) {w' : Link}
    → wait_for timeout m w ≡ (ok a, w')
    → ((u : Link)
        → m (record w { deadline = some (w.clock + timeout) }) ≡ (ok a, u)
        → w' ≡ record u { deadline = none }
        → C)
    → C
wait_for-returned timeout m w h k =
    elim (Outcome-cases (m (record w { deadline = some (w.clock + timeout) }))) [
      | inl (x, u, e) ↦
          ok-injective (rw e at h) λ same left. k u (e ∙ ap (λ b. (ok b, u)) same) (sym left)
      | inr (inl (x, u, e)) ↦ cc (rw e at h)
      | inr (inr (u, e)) ↦ cc (rw e at h)
    ]
