-- ===== src/Tools/Transfer/Verified.antt =====
-- What a push or a pull that returns has established.
use flipperzero_mcp.Tools.Transfer.Returned.{
  verify_md5-returned, classified_but_tool_end-returned, on_client-returned, local-returned,
  read_bytes-returned, on_link-returned, require-returned,
}
use flipperzero_mcp.Base.Dict.{lookup}
use flipperzero_mcp.Rpc.Storage.{storage_md5sum}
use flipperzero_mcp.Config.{FlipperConfig}
use flipperzero_mcp.Tools.Common.{require, on_link, get_rpc, require_write_tools, Attempt}
use flipperzero_mcp.Rpc.Write.{storage_write}
use flipperzero_mcp.Link.{write_tools_disabled, failed, Result, ok, Link}
use flipperzero_mcp.Tools.Transfer.{
  verify_md5, classified_but_tool_end, on_client, read_bytes, local, World, flipperzero_fs_push,
  upload, Hash,
}
use flipperzero_mcp.Cli.Risk.{Case}
use flipperzero_mcp.Proto.{Codec}
use flipperzero_mcp.Base.{some, Option, true, ◌∙◌, ap, sym, ◌≡◌, ℕ, Text, Bytes, length}
use flipperzero_mcp.Action.{>>=-returned}
use flipperzero_mcp.Client.{Client}

module _ ⦃c : Codec⦄ ⦃k : Case⦄ ⦃h : Hash⦄ where
  -- The device has a file of the digest that the answer names, as asked last.
  pub record IsUploaded (dest_path : Text) (content : Bytes) (after : Link) : Type 0 where
    pub before : Link
    pub between : Link
    pub digest : Text
    pub wrote : storage_write dest_path content before ≡ (ok true, between)
    pub reported : storage_md5sum dest_path between ≡ (ok (some digest), after)
    pub same : k.lower digest ≡ k.lower (h.md5_hex content)

  upload-returned :
      {C : Type 0} (attempt : Attempt) (dest_path : Text) (content : Bytes) (cl : Client)
      {o : Option Text} {cl' : Client}
      → upload attempt dest_path content cl ≡ (ok o, cl')
      → ((w v : Link)
          → storage_write dest_path content w ≡ (ok true, v)
          → storage_md5sum dest_path v ≡ (ok o, cl'.link)
          → C)
      → C
  unfolding upload
  upload-returned attempt dest_path content cl q κ =
      >>=-returned (get_rpc attempt) _ cl q λ _ u _ q.
        >>=-returned (on_link (storage_write dest_path content)) _ u q λ wrote v e q.
          >>=-returned (require wrote failed) _ v q λ _ v' e' q.
            require-returned wrote failed v e' λ yes same.
              κ u.link v.link (cc (on_link-returned (storage_write dest_path content) u e, yes))
                (on_link-returned (storage_md5sum dest_path) v (rw same at q))

  -- A push that returns was allowed by the configuration and has read the local file. The device
  -- accepted a write of exactly its content, then reported a digest that is the content's but for
  -- case, and the answer is the content's length and digest; no file of the host has changed.
  pub fs_push-IsUploaded :
      (config : FlipperConfig) (attempt : Attempt) (local_path dest_path : Text) (s : World) {n : ℕ}
      {digest : Text} {s' : World}
      → flipperzero_fs_push config attempt local_path dest_path s ≡ (ok (n, digest), s')
      → (config.enable_write_tools ≡ true)
        × ((content : Bytes) × (lookup local_path s.disk.files ≡ some content)
            × (n ≡ length content)
            × (digest ≡ h.md5_hex content)
            × IsUploaded dest_path content s'.client.link)
        × (s'.disk ≡ s.disk)
  unfolding flipperzero_fs_push require_write_tools
  fs_push-IsUploaded config attempt local_path dest_path s q =
      >>=-returned (require config.enable_write_tools write_tools_disabled) _ s q λ _ s₁ e₁ q.
        require-returned config.enable_write_tools write_tools_disabled s e₁ λ on same₁.
          >>=-returned (local (read_bytes local_path)) _ s₁ q λ content s₂ e₂ q.
            let file = read_bytes-returned local_path s₁ (local-returned _ s₁ e₂) in
            >>=-returned
              (on_client (λ cl. classified_but_tool_end (upload attempt dest_path content cl))) _ s₂
              q
              λ o s₃ e₃ q.
                let sent = on_client-returned _ s₂ e₃ in
                upload-returned attempt dest_path content s₂.client
                  (classified_but_tool_end-returned _ sent.0)
                  λ w v wrote asked.
                    >>=-returned (verify_md5 (h.md5_hex content) o) _ s₃ q λ _ s₄ e₄ q.
                      let checked = verify_md5-returned (h.md5_hex content) o s₃ e₄ in
                      (
                        on,
                        (
                          content,
                          ap (λ u. lookup local_path u.disk.files) (sym same₁) ∙ file.0,
                          cc q,
                          cc q,
                          record {
                            before = w;
                            between = v;
                            digest = checked.0.0;
                            wrote = wrote;
                            reported =
                                cc (
                                  asked,
                                  checked.0.1,
                                  ap (λ u. u.client.link) (ending q checked.1),
                                );
                            same = checked.0.2;
                          },
                        ),
                        ap (λ u. u.disk) (sym (ending q checked.1))
                            ∙ sent.1
                            ∙ ap (λ u. u.disk) (file.1 ∙ same₁),
                      )
    where
      ending :
          {a b : ℕ × Text} {u v w : World}
          → ◌≡◌ {A = Result (ℕ × Text) × World} (ok a, u) (ok b, v)
          → u ≡ w
          → w ≡ v
      ending q e = cc (q, e)
