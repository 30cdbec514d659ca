-- ===== src/Tools/Flash/Gated.antt =====
-- What a firmware install that returns has checked.
use mathlib.Core.Path.{subst}
use flipperzero_mcp.Base.{
  ◌∷◌, [], some, none, Option, false, true, Bool, inr, inl, ◌∙◌, ap, sym, ◌≡◌, is_empty, text_eq→eq,
  text_eq, codes, Text, Bool-cases,
}
use flipperzero_mcp.Base.Dict.{lookup}
use flipperzero_mcp.Action.{F, raise, ◌>>◌, handle, >>=-returned}
use flipperzero_mcp.Proto.{Codec}
use flipperzero_mcp.Config.{FlipperConfig}
use flipperzero_mcp.Client.{Client}
use flipperzero_mcp.Rpc.System
use flipperzero_mcp.Tools.Flash.Confirmed.{by_client-returned, by_client-rest}
use flipperzero_mcp.Cli.Risk.{Case}
use flipperzero_mcp.Link.{
  no_target, install_failed, cancelled, wrong_confirm, tool_error, no_identity,
  firmware_flash_disabled, raised, Exn, Result, write_tools_disabled, ok, Reason,
}
use flipperzero_mcp.Firmware.Installer.{Bundle, install_bundle}
use flipperzero_mcp.Firmware.Flavor.{FirmwareInfo, classify}
use flipperzero_mcp.Firmware.Archive.{Upstream}
use flipperzero_mcp.Rpc.System.{Info}
use flipperzero_mcp.Tools.Common.{
  require_write_tools, Attempt, require, require_firmware_flash, ensure_connected, get_rpc, on_link,
}
use flipperzero_mcp.Tools.Transfer.{Hash}
use flipperzero_mcp.Tools.Transfer.Returned.{require-returned, classified_end-returned}
use flipperzero_mcp.Tools.Flash.{
  Bench, Source, Installed, by_client, by_network, at_network, identify, filled, install, resolve,
  device, is_install_error, reconnect_and_classify, flipperzero_firmware_install,
}

require_firmware_flash-returned :
    {S C : Type 0} (config : FlipperConfig) (s : S) {x : Unit {0}} {u : S}
    → require_firmware_flash config s ≡ (ok x, u)
    → ((config.enable_write_tools ≡ true) → (config.enable_firmware_flash ≡ true) → u ≡ s → C)
    → C
unfolding require_firmware_flash require_write_tools
require_firmware_flash-returned config s h κ =
    >>=-returned (require config.enable_write_tools write_tools_disabled) _ s h λ _ s₁ e₁ h.
      require-returned config.enable_write_tools write_tools_disabled s e₁ λ writes same.
        require-returned config.enable_firmware_flash firmware_flash_disabled s₁ h
          λ flashes same'. κ writes flashes (same' ∙ same)

filled-returned :
    {S : Type 0} (reason : Reason) (o : Option Text) (s : S) {t : Text} {u : S}
    → filled reason o s ≡ (ok t, u)
    → (o ≡ some t) × (is_empty t ≡ false) × (u ≡ s)
filled-returned reason none s h = cc h
filled-returned reason (some []) s h = cc h
filled-returned reason (some (d ∷ t)) s h = (cc h, is_empty_eq (text_of h), cc h)
  where
    text_of :
        {a b : Text} {S : Type 0} {u v : S} → ◌≡◌ {A = Result Text × S} (ok a, u) (ok b, v) → a ≡ b
    text_of h = cc h

    is_empty_eq : {b : Text} → (d ∷ t) ≡ b → is_empty b ≡ false
    is_empty_eq e = ap is_empty (sym e)

-- A `try` whose handler raises returns what its body returns.
handle-raise-returned :
    {S A : Type 0} (caught : Exn → Bool) (r : Result A × S) (x : Exn) {a : A} {s : S}
    → handle caught r (raise x) ≡ (ok a, s)
    → r ≡ (ok a, s)
handle-raise-returned caught (ok b, v) x h = h
handle-raise-returned caught (raised e, v) x h = elim (Bool-cases (caught e)) [
  | inl y ↦ cc (rw y at h)
  | inr n ↦ cc (rw n at h)
]
handle-raise-returned caught (cancelled, v) x h = cc h

module _ {N : Type 0} ⦃c : Codec⦄ where
  -- The tool has connected, has found its RPC client, and the device has told its info.
  pub record IsIdentified (attempt again : Attempt) (info : Info) (s s' : Bench N) : Type 0 where
    pub connected : Client
    pub usable : Client
    pub connecting : ensure_connected attempt s.client ≡ (ok tt, connected)
    pub finding : get_rpc again connected ≡ (ok tt, usable)
    pub told : on_link flipperzero_mcp.Rpc.System.get_device_info usable ≡ (ok info, s'.client)
    pub rest : s' ≡ record s { client = s'.client }

  identify-IsIdentified :
      (attempt again : Attempt) (s : Bench N) {info : Info} {s' : Bench N}
      → by_client (identify attempt again) s ≡ (ok info, s')
      → IsIdentified attempt again info s s'
  unfolding identify
  identify-IsIdentified attempt again s {s' = s'} q =
      >>=-returned (ensure_connected attempt >> get_rpc again) _ s.client
        (classified_end-returned _ (by_client-returned _ s q))
        λ _ w found told. >>=-returned (ensure_connected attempt) _ s.client found λ _ v e e'.
          record {
            connected = v;
            usable = w;
            connecting = e;
            finding = e';
            told = told;
            rest = by_client-rest _ s q;
          }

module _ {N : Type 0} ⦃c : Codec⦄ ⦃k : Case⦄ ⦃h : Hash⦄ (u : Upstream N) where
  by_network-returned :
      {A : Type 0} (m : F N A) (s : Bench N) {a : A} {v : Bench N}
      → by_network m s ≡ (ok a, v)
      → (n : N) × (m s.network ≡ (ok a, n)) × (v ≡ record s { network = n })
  unfolding by_network at_network
  by_network-returned {A = A} m s q = by_end (m s.network) q
    where
      by_end :
          (r : Result A × N) {a : A} {v : Bench N}
          → at_network s r ≡ (ok a, v)
          → (n : N) × (r ≡ (ok a, n)) × (v ≡ record s { network = n })
      by_end (ok b, n) q = (n, cc q, cc q)
      by_end (raised e, n) q = cc q
      by_end (cancelled, n) q = cc q

  -- From one state to the other, the bundle was resolved for the target, and installed.
  pub record IsFlashed (source : Source) (target : Text) (bundle : Bundle) (s s' : Bench N)
      : Type 0 where
    pub network : N
    pub resolved : resolve u source target s.network ≡ (ok bundle, network)
    pub installed :
        install_bundle device bundle (codes "mcp-update") (record s { network = network })
        ≡ (ok tt, s')

  install-IsFlashed :
      (source : Source) (target : Text) (s : Bench N) {bundle : Bundle} {s' : Bench N}
      → install u source target s ≡ (ok bundle, s')
      → IsFlashed source target bundle s s'
  unfolding install
  install-IsFlashed source target s q =
      >>=-returned (by_network (resolve u source target)) _ s
        (handle-raise-returned is_install_error _ (tool_error install_failed) q)
        λ bundle s₁ e₁ q.
          >>=-returned (install_bundle device bundle (codes "mcp-update")) _ s₁ q λ x s₂ e₂ q.
            let found = by_network-returned (resolve u source target) s e₁ in
            flashed s bundle found.0 found.1
              (subst (λ z. install_bundle device bundle (codes "mcp-update") z ≡ (ok tt, s₂))
                found.2 e₂)
              q
    where
      flashed :
          (s : Bench N) (bundle : Bundle) (network : N) {s₂ : Bench N} {b : Bundle} {s' : Bench N}
          → resolve u source target s.network ≡ (ok bundle, network)
          → install_bundle device bundle (codes "mcp-update") (record s { network = network })
            ≡ (ok tt, s₂)
          → ◌≡◌ {A = Result Bundle × Bench N} (ok bundle, s₂) (ok b, s')
          → IsFlashed source target b s s'
      flashed s bundle network e i q =
          subst {A = Bundle × Bench N} (λ r. IsFlashed source target r.0 s r.1) (cc q)
            (record { network = network; resolved = e; installed = i })

  -- An install that returns was allowed by both settings. The device, once connected, told its name,
  -- which is the token that the caller confirmed, and its hardware target; from there a bundle was
  -- resolved for that target and installed; and then the answer's firmware was read back. The answer
  -- names the target of the bundle, and the firmware that the device told before.
  pub firmware_install-IsFlashed :
      (config : FlipperConfig) (attempt again : Attempt) (source : Source) (confirm : Text)
      (s : Bench N) {answer : Installed} {s' : Bench N}
      → flipperzero_firmware_install u config attempt again source confirm s ≡ (ok answer, s')
      → (config.enable_write_tools ≡ true)
        × (config.enable_firmware_flash ≡ true)
        × ((info : Info) × (target : Text) × (bundle : Bundle) × (told : Bench N) × (flashed : Bench
              N)
            × IsIdentified attempt again info s told
            × (lookup (codes "hardware_name") info ≡ some confirm)
            × (is_empty confirm ≡ false)
            × ((classify info).target ≡ some target)
            × IsFlashed source target bundle told flashed
            × (reconnect_and_classify (classify info) flashed
                ≡ (ok (answer.after, answer.after_confirmed), s'))
            × (answer.before ≡ classify info)
            × (answer.target ≡ bundle.target))
  unfolding flipperzero_firmware_install
  firmware_install-IsFlashed config attempt again source confirm s q =
      >>=-returned (require_firmware_flash config) _ s q λ _ s₁ e₁ q.
        require_firmware_flash-returned config s e₁ λ writes flashes same₁.
          >>=-returned (by_client (identify attempt again)) _ s₁ q λ info s₂ e₂ q.
            >>=-returned (filled no_identity (lookup (codes "hardware_name") info)) _ s₂ q
              λ name s₃ e₃ q.
                let named = filled-returned no_identity _ s₂ e₃ in
                >>=-returned (require (text_eq confirm name) wrong_confirm) _ s₃ q λ _ s₄ e₄ q.
                  require-returned (text_eq confirm name) wrong_confirm s₃ e₄ λ confirmed same₄.
                    let same = text_eq→eq confirm name confirmed in
                    >>=-returned (filled no_target (classify info).target) _ s₄ q λ target s₅ e₅ q.
                      let aimed = filled-returned no_target _ s₄ e₅ in
                      >>=-returned (install u source target) _ s₅ q λ bundle s₆ e₆ q.
                        >>=-returned (reconnect_and_classify (classify info)) _ s₆ q λ read s₇ e₇ q.
                          (
                            writes,
                            flashes,
                            (
                              info,
                              target,
                              bundle,
                              s₂,
                              s₆,
                              subst (λ x. IsIdentified attempt again info x s₂) same₁
                                  (identify-IsIdentified attempt again s₁ e₂),
                              named.0 ∙ ap some (sym same),
                              ap is_empty same ∙ named.1,
                              aimed.0,
                              subst (λ x. IsFlashed source target bundle x s₆)
                                  (aimed.2 ∙ same₄ ∙ named.2)
                                  (install-IsFlashed source target s₅ e₆),
                              e₇ ∙ read_eq q,
                              ap (λ a. a.before) (sym (answer_eq q)),
                              ap (λ a. a.target) (sym (answer_eq q)),
                            ),
                          )
    where
      answer_eq :
          {a b : Installed} {v w : Bench N}
          → ◌≡◌ {A = Result Installed × Bench N} (ok a, v) (ok b, w)
          → a ≡ b
      answer_eq q = cc q

      read_eq :
          {a b : Installed} {v w : Bench N}
          → ◌≡◌ {A = Result Installed × Bench N} (ok a, v) (ok b, w)
          → ◌≡◌ {A = Result (FirmwareInfo × Bool) × Bench N}
              (ok (a.after, a.after_confirmed), v)
              (ok (b.after, b.after_confirmed), w)
      read_eq {b = b} {v = v} q =
          ap (λ x. (ok (x.after, x.after_confirmed), v)) (answer_eq q)
          ∙ ap (λ x. (ok (b.after, b.after_confirmed), x)) (cc q)
