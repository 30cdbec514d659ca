-- ===== src/Rpc/Write.antt =====
-- `storage_write` of rpc/protobuf_rpc.py: one file in frames of 1024 bytes, the last one answered.
pub mod Sent
use flipperzero_mcp.Base.{
  ◌∷◌, [], List, false, true, Bool, max, ◌/◌, suc, zero, ℕ, Text, Bytes, drop, take, length,
}
use flipperzero_mcp.Proto.{Main, Codec, Content}
use flipperzero_mcp.Link.{sleep, except, ◌>>◌, ◌>>=◌, pure, M, send}
use flipperzero_mcp.Rpc.Frame.{frame, receive_main_message}
use flipperzero_mcp.Rpc.Session.{get_next_command_id, ensure_rpc_session_started}
use flipperzero_mcp.Rpc.Call.{acknowledged, limited}

-- _WRITE_CHUNK_SIZE
abbrev pub write_chunk_size : ℕ
write_chunk_size = 1024

-- The slices of `_chunk`, by the bytes left at most.
slices : ℕ → ℕ → Bytes → List Bytes
slices fuel size [] = []
slices zero size (x ∷ xs) = []
slices (suc fuel) size (x ∷ xs) = take size (x ∷ xs) ∷ slices fuel size (drop size (x ∷ xs))

-- `_chunk`: each slice takes a byte at least, so `len(content)` slices are enough.
unfoldable pub chunk : Bytes → ℕ → List Bytes
unfolding slices
chunk [] size = [] ∷ []
chunk (x ∷ xs) size = slices (length (x ∷ xs)) size (x ∷ xs)

abbrev pub write_message : ℕ → Text → Bytes → Bool → Main
write_message command_id path part has_next = record {
  command_id = command_id;
  command_status = 0;
  has_next = has_next;
  content = Content.storage_write_request path part;
}

module _ ⦃c : Codec⦄ where
  -- `asyncio.sleep(len(framed) / 80_000)`, in whole milliseconds.
  unfoldable pub pace : Bytes → M (Unit {0})
  pace framed = sleep (length framed / 80)

  -- The `for` loop over the chunks.
  unfoldable pub write_chunks : ℕ → Text → List Bytes → M Bool
  unfolding pace
  write_chunks id path [] = pure false
  write_chunks id path (part ∷ []) = do
    send (frame (write_message id path part false))
    response ← receive_main_message 2500
    pure (acknowledged response)
  write_chunks id path (part ∷ next ∷ parts) = do
    send (frame (write_message id path part true))
    pace (frame (write_message id path part true))
    write_chunks id path (next ∷ parts)

  -- `_storage_write_internal`
  unfoldable pub storage_write_internal : Text → Bytes → M Bool
  storage_write_internal path content =
      except
        (do
          ensure_rpc_session_started
          id ← get_next_command_id
          write_chunks id path (chunk content write_chunk_size))
        (pure false)

  -- The timeout is 15 s, or a second for 40,000 bytes if that is longer.
  unfoldable pub storage_write : Text → Bytes → M Bool
  storage_write path content =
      limited (max 15000 (length content / 40)) false (storage_write_internal path content)
