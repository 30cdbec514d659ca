-- ===== src/Tools/Transfer/Returned.antt =====
-- What is known of the steps of a transfer once they have returned.
use flipperzero_mcp.Action.Keeps.{Keeps-pure, Keeps-if, Keeps-raise, Keeps}
use flipperzero_mcp.Base.Dict.{lookup}
use flipperzero_mcp.Cli.Risk.{Case}
use flipperzero_mcp.Link.{
  cancelled, local_file_failed, digest_mismatch, tool_error, Link, raised, ok, M, Reason, Result,
}
use flipperzero_mcp.Base.{
  some, none, Option, false, true, Bool, inr, inl, refl, ◌≡◌, text_eq→eq, text_eq, Text, Bytes,
  length, Bool-cases, leb,
}
use flipperzero_mcp.Action.{F, raise, handle}
use flipperzero_mcp.Client.{Client}
use flipperzero_mcp.Tools.Common.{classified_end, on_link, require, relinked}
use flipperzero_mcp.Tools.Transfer.{
  World, on_client, beside, local, is_path, with_path, read_file, write_file, read_bytes,
  write_bytes, found, stored, verify_md5, classified_but_tool_end, is_os_error,
}

module _ {S A : Type 0} where
  pub classified_end-returned :
      (r : Result A × S) {a : A} {u : S} → classified_end r ≡ (ok a, u) → r ≡ (ok a, u)
  unfolding classified_end
  classified_end-returned (ok b, s) h = h
  classified_end-returned (raised e, s) h = cc h
  classified_end-returned (cancelled, s) h = cc h

pub classified_but_tool_end-returned :
    {A : Type 0} (r : Result A × Client) {a : A} {u : Client}
    → classified_but_tool_end r ≡ (ok a, u)
    → r ≡ (ok a, u)
unfolding classified_but_tool_end
classified_but_tool_end-returned (ok b, s) h = h
classified_but_tool_end-returned (raised (tool_error reason), s) h = cc h
classified_but_tool_end-returned (raised _, s) h = cc h
classified_but_tool_end-returned (cancelled, s) h = cc h

pub require-returned :
    {S C : Type 0} (b : Bool) (reason : Reason) (s : S) {x : Unit {0}} {u : S}
    → require b reason s ≡ (ok x, u)
    → (b ≡ true → u ≡ s → C)
    → C
require-returned true reason s h k = k refl (cc h)
require-returned false reason s h k = cc h

pub on_link-returned :
    {A : Type 0} (m : M A) (cl : Client) {a : A} {u : Client}
    → on_link m cl ≡ (ok a, u)
    → m cl.link ≡ (ok a, u.link)
unfolding on_link
on_link-returned {A = A} m cl h = by_end (m cl.link) h
  where
    by_end :
        (r : Result A × Link) {a : A} {u : Client} → relinked cl r ≡ (ok a, u) → r ≡ (ok a, u.link)
    by_end (ok b, w) h = cc h
    by_end (raised e, w) h = cc h
    by_end (cancelled, w) h = cc h

pub on_client-returned :
    {A : Type 0} (m : F Client A) (s : World) {a : A} {u : World}
    → on_client m s ≡ (ok a, u)
    → (m s.client ≡ (ok a, u.client)) × (u.disk ≡ s.disk)
unfolding on_client
on_client-returned {A = A} m s h = by_end (m s.client) h
  where
    by_end :
        (r : Result A × Client) {a : A} {u : World}
        → beside s.disk r ≡ (ok a, u)
        → (r ≡ (ok a, u.client)) × (u.disk ≡ s.disk)
    by_end (ok b, cl) h = (cc h, cc h)
    by_end (raised e, cl) h = cc h
    by_end (cancelled, cl) h = cc h

pub local-returned :
    {A : Type 0} (m : F World A) (s : World) {a : A} {u : World}
    → local m s ≡ (ok a, u)
    → m s ≡ (ok a, u)
unfolding local
local-returned {A = A} m s h = by_end (m s) h
  where
    by_end :
        (r : Result A × World) {a : A} {u : World}
        → handle is_os_error r (raise (tool_error local_file_failed)) ≡ (ok a, u)
        → r ≡ (ok a, u)
    by_end (ok b, v) h = h
    by_end (raised e, v) h = elim (Bool-cases (is_os_error e)) [
      | inl y ↦ cc (rw y at h)
      | inr n ↦ cc (rw n at h)
    ]
    by_end (cancelled, v) h = cc h

read_file-returned :
    (path : Text) (s : World) {content : Bytes} {u : World}
    → read_file path s ≡ (ok content, u)
    → (lookup path s.disk.files ≡ some content) × (u ≡ s)
unfolding read_file
read_file-returned path s h = by_file (lookup path s.disk.files) h
  where
    by_file :
        (o : Option Bytes) {content : Bytes} {u : World}
        → found o s ≡ (ok content, u)
        → (o ≡ some content) × (u ≡ s)
    by_file none h = cc h
    by_file (some c) h = (cc h, cc h)

write_file-returned :
    (path : Text) (content : Bytes) (s : World) {x : Unit {0}} {u : World}
    → write_file path content s ≡ (ok x, u)
    → u ≡ stored path content s
unfolding write_file
write_file-returned path content s h = elim (Bool-cases (s.disk.is_denied path)) [
  | inl denied ↦ cc (rw denied at h)
  | inr allowed ↦ elim (Bool-cases (leb (length content) s.disk.room)) [
    | inl fits ↦ cc (rw (allowed, fits) at h)
    | inr full ↦ cc (rw (allowed, full) at h)
  ]
]

with_path-returned :
    {A : Type 0} (path : Text) (m : F World A) (s : World) {a : A} {u : World}
    → with_path path m s ≡ (ok a, u)
    → m s ≡ (ok a, u)
with_path-returned path m s h = elim (Bool-cases (is_path path)) [
  | inl y ↦ rw y at h
  | inr n ↦ cc (rw n at h)
]

pub read_bytes-returned :
    (path : Text) (s : World) {content : Bytes} {u : World}
    → read_bytes path s ≡ (ok content, u)
    → (lookup path s.disk.files ≡ some content) × (u ≡ s)
unfolding read_bytes
read_bytes-returned path s h =
    read_file-returned path s (with_path-returned path (read_file path) s h)

pub write_bytes-returned :
    (path : Text) (content : Bytes) (s : World) {x : Unit {0}} {u : World}
    → write_bytes path content s ≡ (ok x, u)
    → u ≡ stored path content s
unfolding write_bytes
write_bytes-returned path content s h =
    write_file-returned path content s (with_path-returned path (write_file path content) s h)

pub verify_md5-returned :
    {S : Type 0} ⦃k : Case⦄ (expected : Text) (o : Option Text) (s : S) {x : Unit {0}} {u : S}
    → verify_md5 expected o s ≡ (ok x, u)
    → ((digest : Text) × (o ≡ some digest) × (k.lower digest ≡ k.lower expected)) × (u ≡ s)
unfolding verify_md5
verify_md5-returned expected none s h = cc h
verify_md5-returned ⦃k = k⦄ expected (some digest) s h =
    require-returned (text_eq (k.lower digest) (k.lower expected)) digest_mismatch s h
      λ e same. ((digest, refl, text_eq→eq _ _ e), same)

-- The check leaves the state alone.
pub verify_md5-Keeps :
    {S : Type 0} {Q : S → Type 0} ⦃k : Case⦄ (expected : Text) (o : Option Text)
    → Keeps Q (verify_md5 expected o)
unfolding verify_md5
verify_md5-Keeps expected none = Keeps-raise _
verify_md5-Keeps expected (some digest) = Keeps-if _ _ _ (Keeps-pure tt) (Keeps-raise _)
