-- ===== src/Tools/Transfer/Reports.antt =====
-- What the steps of a transfer raise: an OSError of the host becomes a ToolError, a ValueError not.
use flipperzero_mcp.Base.Dict.{lookup}
use flipperzero_mcp.Tools.Common.{classify_client_error}
use flipperzero_mcp.Cli.Risk.{Case}
use flipperzero_mcp.Link.{
  local_file_failed, is_os_error, cancelled, digest_mismatch, ok, tool_error, no_digest, Reason,
  raised, Result, Exn,
}
use flipperzero_mcp.Tools.Common.Reports.{Reports-require, Reports-raise, Reports}
use flipperzero_mcp.Tools.Transfer.{
  found, beside, verify_md5, classified_but_tool_end, local, write_file, read_file, is_path,
  with_path, write_bytes, read_bytes, World, on_client,
}
use flipperzero_mcp.Base.{
  ◌⊎◌, false, some, none, Option, inr, inl, refl, ◌≡◌, Text, Bytes, length, Bool-cases, leb,
}
use flipperzero_mcp.Action.{F, raise, continue, ◌>>=◌, ◌>>◌, handle}
use flipperzero_mcp.Client.{Client}

pub on_client-Reports : {A : Type 0} {m : F Client A} → Reports m → Reports (on_client m)
unfolding on_client
on_client-Reports {A = A} {m = m} p = record {
  at = λ s h. by_end s (m s.client) (λ x v q. p.at s.client q) h;
}
  where
    by_end :
        (s : World) (r : Result A × Client) {e : Exn} {u : World}
        → ((x : Exn) (v : Client) → r ≡ (raised x, v) → (reason : Reason) × (x ≡ tool_error reason))
        → beside s.disk r ≡ (raised e, u)
        → (reason : Reason) × (e ≡ tool_error reason)
    by_end s (ok a, cl) p h = cc h
    by_end s (raised x, cl) {e = e} {u = u} p h = p e u.client (cc h)
    by_end s (cancelled, cl) p h = cc h

-- What the action raises is an OSError, or a ValueError where the path is none of the host's.
pub record FailsOn {A : Type 0} (path : Text) (m : F World A) : Type 0 where
  pub at :
      (s : World) {e : Exn} {u : World}
      → m s ≡ (raised e, u)
      → (e ≡ Exn.os_error) ⊎ ((e ≡ Exn.value_error) × (is_path path ≡ false))

with_path-FailsOn :
    {A : Type 0} (path : Text) (m : F World A)
    → ((s : World) (e : Exn) (u : World) → m s ≡ (raised e, u) → e ≡ Exn.os_error)
    → FailsOn path (with_path path m)
with_path-FailsOn path m p = record {
  at = λ s h. elim (Bool-cases (is_path path)) [
    | inl y ↦ inl (p s _ _ (rw y at h))
    | inr n ↦ inr (exn_eq (rw n at h), n)
  ];
}
  where
    exn_eq :
        {A : Type 0} {x e : Exn} {s u : World}
        → ◌≡◌ {A = Result A × World} (raised x, s) (raised e, u)
        → e ≡ x
    exn_eq h = cc h

pub read_bytes-FailsOn : (path : Text) → FailsOn path (read_bytes path)
unfolding read_bytes read_file
read_bytes-FailsOn path =
    with_path-FailsOn path (read_file path) λ s e u h. by_file s (lookup path s.disk.files) h
  where
    by_file :
        (s : World) (o : Option Bytes) {e : Exn} {u : World}
        → found o s ≡ (raised e, u)
        → e ≡ Exn.os_error
    by_file s none h = cc h
    by_file s (some content) h = cc h

write_file-raised :
    (path : Text) (content : Bytes) (s : World) {e : Exn} {u : World}
    → write_file path content s ≡ (raised e, u)
    → e ≡ Exn.os_error
unfolding write_file
write_file-raised path content s h = elim (Bool-cases (s.disk.is_denied path)) [
  | inl denied ↦ cc (rw denied at h)
  | inr allowed ↦ elim (Bool-cases (leb (length content) s.disk.room)) [
    | inl fits ↦ cc (rw (allowed, fits) at h)
    | inr full ↦ cc (rw (allowed, full) at h)
  ]
]

pub write_bytes-FailsOn : (path : Text) (content : Bytes) → FailsOn path (write_bytes path content)
unfolding write_bytes
write_bytes-FailsOn path content =
    with_path-FailsOn path (write_file path content) λ s e u h. write_file-raised path content s h

pub FailsOn-then :
    {A B : Type 0} (path : Text) (m : F World A) (k : F World B)
    → FailsOn path m
    → FailsOn path k
    → FailsOn path (m >> k)
FailsOn-then {A = A} path m k p q = record { at = λ s h. by_end (m s) (λ x v q. p.at s q) h }
  where
    by_end :
        (r : Result A × World) {e : Exn} {u : World}
        → ((x : Exn)
            → (v : World) → r ≡ (raised x, v)
            → (x ≡ Exn.os_error) ⊎ ((x ≡ Exn.value_error) × (is_path path ≡ false)))
        → continue r (λ _. k) ≡ (raised e, u)
        → (e ≡ Exn.os_error) ⊎ ((e ≡ Exn.value_error) × (is_path path ≡ false))
    by_end (ok a, s) p h = q.at s h
    by_end (raised x, s) {e = e} {u = u} p h = p e u (cc h)
    by_end (cancelled, s) p h = cc h

-- What the action raises is a ToolError, or a ValueError where the path is none of the host's.
pub record ReportsBut {S A : Type 0} (path : Text) (m : F S A) : Type 0 where
  pub at :
      (s : S) {e : Exn} {u : S}
      → m s ≡ (raised e, u)
      → ((reason : Reason) × (e ≡ tool_error reason))
        ⊎ ((e ≡ Exn.value_error) × (is_path path ≡ false))

pub Reports-ReportsBut : {S A : Type 0} {path : Text} {m : F S A} → Reports m → ReportsBut path m
Reports-ReportsBut p = record { at = λ s h. inl (p.at s h) }

pub ReportsBut-bind :
    {S A B : Type 0} {path : Text} {m : F S A} {f : A → F S B}
    → ReportsBut path m
    → ((a : A) → ReportsBut path (f a))
    → ReportsBut path (m >>= f)
ReportsBut-bind {S = S} {A = A} {path = path} {m = m} {f = f} p q = record {
  at = λ s h. by_end (m s) (λ x v q. p.at s q) h;
}
  where
    by_end :
        (r : Result A × S) {e : Exn} {u : S}
        → ((x : Exn)
            → (v : S) → r ≡ (raised x, v)
            → ((reason : Reason) × (x ≡ tool_error reason))
              ⊎ ((x ≡ Exn.value_error) × (is_path path ≡ false)))
        → continue r f ≡ (raised e, u)
        → ((reason : Reason) × (e ≡ tool_error reason))
          ⊎ ((e ≡ Exn.value_error) × (is_path path ≡ false))
    by_end (ok a, s) p h = (q a).at s h
    by_end (raised x, s) {e = e} {u = u} p h = p e u (cc h)
    by_end (cancelled, s) p h = cc h

-- `except OSError` lets the ValueError pass.
pub local-ReportsBut :
    {A : Type 0} (path : Text) (m : F World A) → FailsOn path m → ReportsBut path (local m)
unfolding local
local-ReportsBut {A = A} path m p = record { at = λ s h. by_end (m s) (λ x v q. p.at s q) h }
  where
    by_end :
        (r : Result A × World) {e : Exn} {u : World}
        → ((x : Exn)
            → (v : World) → r ≡ (raised x, v)
            → (x ≡ Exn.os_error) ⊎ ((x ≡ Exn.value_error) × (is_path path ≡ false)))
        → handle is_os_error r (raise (tool_error local_file_failed)) ≡ (raised e, u)
        → ((reason : Reason) × (e ≡ tool_error reason))
          ⊎ ((e ≡ Exn.value_error) × (is_path path ≡ false))
    by_end (ok a, s) p h = cc h
    by_end (raised x, s) p h = elim (p x s refl) [
      | inl os ↦ inl (local_file_failed, cc (rw os at h))
      | inr (value, bad) ↦ inr (cc (rw value at h), bad)
    ]
    by_end (cancelled, s) p h = cc h

pub but_tool-Reports :
    {A : Type 0} (m : F Client A) → Reports (λ cl. classified_but_tool_end (m cl))
unfolding classified_but_tool_end
but_tool-Reports {A = A} m = record { at = λ cl h. by_end (m cl) h }
  where
    by_end :
        (r : Result A × Client) {e : Exn} {u : Client}
        → classified_but_tool_end r ≡ (raised e, u)
        → (reason : Reason) × (e ≡ tool_error reason)
    by_end (ok a, s) h = cc h
    by_end (raised (tool_error reason), s) h = (reason, cc h)
    by_end (raised x, s) h = (classify_client_error x, cc h)
    by_end (cancelled, s) h = cc h

pub verify_md5-Reports :
    {S : Type 0} ⦃k : Case⦄ (expected : Text) (o : Option Text)
    → Reports {S = S} (verify_md5 expected o)
unfolding verify_md5
verify_md5-Reports expected none = Reports-raise no_digest
verify_md5-Reports expected (some digest) = Reports-require _ digest_mismatch
