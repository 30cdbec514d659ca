-- ===== src/Tools/Transfer/Pulled.antt =====
-- What a pull that returns has established, and what any pull leaves alone.
use flipperzero_mcp.Action.Keeps.{
  Keeps-if, Keeps-pure, Keeps-raise, Keeps-handle, Keeps-bind, Keeps,
}
use flipperzero_mcp.Tools.Transfer.Returned.{
  verify_md5-Keeps, write_bytes-returned, classified_end-returned, verify_md5-returned,
  on_client-returned, local-returned, read_bytes-returned, on_link-returned,
}
use flipperzero_mcp.Base.Dict.{lookup-insert_ne, lookup-insert_self, insert, lookup}
use flipperzero_mcp.Rpc.Storage.{storage_read, storage_md5sum}
use flipperzero_mcp.Tools.Common.{classified_end, on_link, get_rpc, Attempt}
use flipperzero_mcp.Link.{Exn, raised, Result, ok, Link}
use flipperzero_mcp.Tools.Transfer.{
  is_os_error, found, beside, write_bytes, stored, flipperzero_fs_pull, keep, download, verify_md5,
  on_client, read_bytes, is_path, read_file, write_file, local, World, Hash,
}
use flipperzero_mcp.Cli.Risk.{Case}
use flipperzero_mcp.Proto.{Codec}
use flipperzero_mcp.Base.{
  none, false, Bool, refl, text_eq, take, if◌then◌else◌, leb, some, Option, true, ◌∙◌, ap, sym, ◌≡◌,
  ℕ, Text, Bytes, length,
}
use flipperzero_mcp.Action.{F, ◌>>◌, >>=-returned}
use flipperzero_mcp.Client.{Client}

module _ ⦃c : Codec⦄ ⦃k : Case⦄ ⦃h : Hash⦄ where
  -- The device gave these bytes and then a digest that is theirs.
  pub record IsDownloaded (src_path : Text) (content : Bytes) (after : Link) : Type 0 where
    pub before : Link
    pub between : Link
    pub digest : Text
    pub gave : storage_read src_path before ≡ (ok content, between)
    pub reported : storage_md5sum src_path between ≡ (ok (some digest), after)
    pub same : k.lower digest ≡ k.lower (h.md5_hex content)

  download-returned :
      {C : Type 0} (attempt : Attempt) (src_path : Text) (cl : Client) {p : Bytes × Option Text}
      {cl' : Client}
      → download attempt src_path cl ≡ (ok p, cl')
      → ((w v : Link)
          → storage_read src_path w ≡ (ok p.0, v)
          → storage_md5sum src_path v ≡ (ok p.1, cl'.link)
          → C)
      → C
  unfolding download
  download-returned attempt src_path cl q κ = >>=-returned (get_rpc attempt) _ cl q λ _ u _ q.
      >>=-returned (on_link (storage_read src_path)) _ u q λ content v e q.
        >>=-returned (on_link (storage_md5sum src_path)) _ v q λ o v' e' q.
          κ u.link v.link (cc (on_link-returned (storage_read src_path) u e, pair_eq q))
            (cc (on_link-returned (storage_md5sum src_path) v e', pair_eq q, client_eq q))
    where
      pair_eq :
          {a b : Bytes × Option Text} {u v : Client}
          → ◌≡◌ {A = Result (Bytes × Option Text) × Client} (ok a, u) (ok b, v)
          → a ≡ b
      pair_eq q = cc q

      client_eq :
          {a b : Bytes × Option Text} {u v : Client}
          → ◌≡◌ {A = Result (Bytes × Option Text) × Client} (ok a, u) (ok b, v)
          → u ≡ v
      client_eq q = cc q

  keep-returned :
      {C : Type 0} (local_path : Text) (content : Bytes) (o : Option Text) (s : World) {n : ℕ}
      {digest : Text} {s' : World}
      → keep local_path content o s ≡ (ok (n, digest), s')
      → ((n ≡ length content)
          → (digest ≡ h.md5_hex content)
          → (s' ≡ stored local_path content s)
          → ((d : Text) × (o ≡ some d) × (k.lower d ≡ k.lower (h.md5_hex content)))
          → C)
      → C
  unfolding keep
  keep-returned local_path content o s q κ =
      >>=-returned (local (write_bytes local_path content >> read_bytes local_path)) _ s q
        λ written s₁ e₁ q.
          >>=-returned (write_bytes local_path content) _ s (local-returned _ s e₁) λ _ s₂ e₂ e₃.
            let put = write_bytes-returned local_path content s e₂ in
            let got = read_bytes-returned local_path s₂ e₃ in
            let same = content_eq written put got.0 in
            >>=-returned (verify_md5 (h.md5_hex written) o) _ s₁ q λ _ s₃ e₄ q.
              let checked = verify_md5-returned (h.md5_hex written) o s₁ e₄ in
              κ (cc (q, same)) (cc (q, same)) (cc (q, checked.1, got.1, put))
                (checked.0.0, checked.0.1, checked.0.2 ∙ ap (λ b. k.lower (h.md5_hex b)) same)
    where
      content_eq :
          (written : Bytes) {s₂ : World}
          → s₂ ≡ stored local_path content s
          → lookup local_path s₂.disk.files ≡ some written
          → written ≡ content
      content_eq written put got = some_eq (
          sym got
          ∙ ap (λ u. lookup local_path u.disk.files) put
          ∙ lookup-insert_self local_path content s.disk.files)
        where
          some_eq : {a b : Bytes} → some a ≡ some b → a ≡ b
          some_eq e = cc e

  -- A pull that returns has left the local file with exactly the bytes that the device gave, the
  -- other files as they were, and the digest that the device reported is the file's but for case.
  pub fs_pull-IsDownloaded :
      (attempt : Attempt) (src_path local_path : Text) (s : World) {n : ℕ} {digest : Text}
      {s' : World}
      → flipperzero_fs_pull attempt src_path local_path s ≡ (ok (n, digest), s')
      → (content : Bytes) × (n ≡ length content)
        × (digest ≡ h.md5_hex content)
        × (s'.disk.files ≡ insert local_path content s.disk.files)
        × IsDownloaded src_path content s'.client.link
  unfolding flipperzero_fs_pull
  fs_pull-IsDownloaded attempt src_path local_path s q =
      >>=-returned (on_client (λ cl. classified_end (download attempt src_path cl))) _ s q
        λ p s₁ e₁ q.
          let got = on_client-returned _ s e₁ in
          download-returned attempt src_path s.client (classified_end-returned _ got.0)
            λ w v gave asked. keep-returned local_path p.0 p.1 s₁ q λ size digest left checked. (
              p.0,
              size,
              digest,
              ap (λ u. u.disk.files) left ∙ ap (λ d. insert local_path p.0 d.files) got.1,
              record {
                before = w;
                between = v;
                digest = checked.0;
                gave = gave;
                reported = cc (asked, checked.1);
                same = checked.2;
              },
            )

-- The file at another path is this.
abbrev Holds : Text → Option Bytes → World → Type 0
Holds path o s = lookup path s.disk.files ≡ o

module _ {path : Text} {o : Option Bytes} where
  on_client-Holds : {A : Type 0} (m : F Client A) → Keeps (Holds path o) (on_client m)
  unfolding on_client
  on_client-Holds {A = A} m = record { at = λ s h. by_end s (m s.client) h }
    where
      by_end :
          (s : World) (r : Result A × Client) → Holds path o s → Holds path o (beside s.disk r).1
      by_end s (r, cl) h = h

  read_file-Holds : (local_path : Text) → Keeps (Holds path o) (read_file local_path)
  unfolding read_file
  read_file-Holds local_path = record { at = λ s h. by_file s (lookup local_path s.disk.files) h }
    where
      by_file : (s : World) (f : Option Bytes) → Holds path o s → Holds path o (found f s).1
      by_file s none h = h
      by_file s (some content) h = h

  write_file-Holds :
      (local_path : Text) (content : Bytes)
      → text_eq local_path path ≡ false
      → Keeps (Holds path o) (write_file local_path content)
  unfolding write_file
  write_file-Holds local_path content other = record {
    at = λ s h. by_tests s (s.disk.is_denied local_path) (leb (length content) s.disk.room) h;
  }
    where
      by_tests :
          (s : World) (denied fits : Bool)
          → Holds path o s
          → Holds path o
              (if◌then◌else◌ {A = Result (Unit {0}) × World} denied
                (raised Exn.os_error, s)
                (if fits
                  then (ok tt, stored local_path content s)
                  else (raised Exn.os_error, stored local_path (take s.disk.room content) s))).1
      by_tests s true fits h = h
      by_tests s false true h = lookup-insert_ne path local_path content s.disk.files other ∙ h
      by_tests s false false h =
          lookup-insert_ne path local_path (take s.disk.room content) s.disk.files other ∙ h

  read_bytes-Holds : (local_path : Text) → Keeps (Holds path o) (read_bytes local_path)
  unfolding read_bytes
  read_bytes-Holds local_path =
      Keeps-if (is_path local_path) _ _ (read_file-Holds local_path) (Keeps-raise _)

  write_bytes-Holds :
      (local_path : Text) (content : Bytes)
      → text_eq local_path path ≡ false
      → Keeps (Holds path o) (write_bytes local_path content)
  unfolding write_bytes
  write_bytes-Holds local_path content other =
      Keeps-if (is_path local_path) _ _ (write_file-Holds local_path content other) (Keeps-raise _)

-- However a pull ends, no other file of the host has changed.
pub fs_pull-lookup :
    ⦃c : Codec⦄ ⦃k : Case⦄ ⦃h : Hash⦄
    → (attempt : Attempt) (src_path local_path path : Text) (s : World)
    → text_eq local_path path ≡ false
    → lookup path (flipperzero_fs_pull attempt src_path local_path s).1.disk.files
      ≡ lookup path s.disk.files
unfolding flipperzero_fs_pull keep local
fs_pull-lookup attempt src_path local_path path s other =
    (Keeps-bind _ _ (on_client-Holds (λ cl. classified_end (download attempt src_path cl))) λ p.
        Keeps-bind _ _
          (Keeps-handle is_os_error _ _
            (Keeps-bind _ _ (write_bytes-Holds local_path p.0 other)
              λ _. read_bytes-Holds local_path)
            (Keeps-raise _))
          λ written. Keeps-bind _ _ (verify_md5-Keeps _ p.1) λ _. Keeps-pure _).at
      s refl
