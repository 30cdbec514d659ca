-- ===== src/Action.antt =====
-- Actions with an explicit state: the shape of every coroutine above the link, whose state is the
-- device, the client or the host together with it.
use flipperzero_mcp.Link.{raised, Exn, ok, Result}
use flipperzero_mcp.Base.{Bool, refl, ◌≡◌, if◌then◌else◌}
pub mod Keeps
use flipperzero_mcp.Link.{cancelled, raised, ok, Result, Exn}

-- An action over a state `D`, which stays after an exception.
abbrev pub F : Type 0 → Type 0 → Type 0
F D A = D → Result A × D

module _ {D : Type 0} where
  abbrev pub pure : {A : Type 0} → A → F D A
  pure a d = (ok a, d)

  abbrev pub raise : {A : Type 0} → Exn → F D A
  raise e d = (raised e, d)

  -- The await was cancelled.
  abbrev pub cancel : {A : Type 0} → F D A
  cancel d = (cancelled, d)

  abbrev pub continue : {A B : Type 0} → Result A × D → (A → F D B) → Result B × D
  continue (ok a, d) f = f a d
  continue (raised e, d) f = (raised e, d)
  continue (cancelled, d) f = (cancelled, d)

  infixl 5 ◌>>=◌ ◌>>◌
  abbrev pub ◌>>=◌ : {A B : Type 0} → F D A → (A → F D B) → F D B
  ◌>>=◌ m f d = continue (m d) f

  abbrev pub ◌>>◌ : {A B : Type 0} → F D A → F D B → F D B
  m >> k = m >>= λ _. k

  -- `try: … except …: …`, where `caught` tells the classes that are caught.
  abbrev pub handle : {A : Type 0} → (Exn → Bool) → Result A × D → F D A → Result A × D
  handle caught (ok a, d) h = (ok a, d)
  handle caught (raised e, d) h = if caught e then h d else (raised e, d)
  handle caught (cancelled, d) h = (cancelled, d)

  continue-returned :
      {A B C : Type 0} (r : Result A × D) (f : A → F D B) {b : B} {d' : D}
      → continue r f ≡ (ok b, d')
      → ((a : A) (u : D) → r ≡ (ok a, u) → f a u ≡ (ok b, d') → C)
      → C
  continue-returned (ok a, u) f h k = k a u refl h
  continue-returned (raised x, u) f h k = cc h
  continue-returned (cancelled, u) f h k = cc h

  pub >>=-returned :
      {A B C : Type 0} (m : F D A) (f : A → F D B) (d : D) {b : B} {d' : D}
      → (m >>= f) d ≡ (ok b, d')
      → ((a : A) (u : D) → m d ≡ (ok a, u) → f a u ≡ (ok b, d') → C)
      → C
  >>=-returned m f d h k = continue-returned (m d) f h k
