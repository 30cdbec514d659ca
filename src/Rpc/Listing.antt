-- ===== src/Rpc/Listing.antt =====
-- `storage_list` and `storage_list_detailed` of rpc/protobuf_rpc.py: a response in several frames.
pub mod Complete
use flipperzero_mcp.Link.{◌>>◌, flipper_protocol, flipper_timeout, ◌>>=◌, raise, pure, M}
use flipperzero_mcp.Base.{
  ◌++◌, ◌∷◌, [], List, some, none, Option, Bool, suc, zero, ℕ, is_empty, Text, if◌then◌else◌,
}
use flipperzero_mcp.Proto.{Main, Codec, Content, File, is_ok}
use flipperzero_mcp.Rpc.Frame.{receive_main_message}
use flipperzero_mcp.Rpc.Call.{call}
use flipperzero_mcp.Rpc.Storage.{Entry, kind_of, non_empty}

-- A continuation frame, or why there is none.
unfoldable pub next_frame : (Main → M (List Main)) → Option Main → M (List Main)
next_frame more none = raise flipper_timeout
next_frame more (some m) =
    if is_ok m then (do rest ← more m; pure (m ∷ rest)) else raise flipper_protocol

abbrev max_iterations : ℕ
max_iterations = 100

abbrev pub files : Content → List File
files (Content.storage_list_response l) = l
files _ = []

abbrev pub names_of : List File → List Text
names_of [] = []
names_of (f ∷ l) = if is_empty f.name then names_of l else f.name ∷ names_of l

abbrev pub entries_of : Bool → List File → List Entry
entries_of include_md5 [] = []
entries_of include_md5 (f ∷ l) =
    if is_empty f.name
    then entries_of include_md5 l
    else record {
      name = f.name;
      kind = kind_of f.kind;
      size = f.size;
      md5sum = if include_md5 then non_empty f.md5sum else none;
    }
      ∷ entries_of include_md5 l

abbrev pub all_files : List Main → List File
all_files [] = []
all_files (m ∷ frames) = files m.content ++ all_files frames

-- The frames of a response, each `OK`; the generator's consumers only see them all or an error.
module _ ⦃c : Codec⦄ where
  -- `while response.has_next`, by the iterations left of `max_iterations`.
  unfoldable pub continuation : ℕ → Main → M (List Main)
  continuation zero response = if response.has_next then raise flipper_protocol else pure []
  continuation (suc k) response =
      let round = receive_main_message 2500 >>= next_frame (continuation k) in
      if response.has_next then round else pure []

  -- `_storage_list_frames`
  unfoldable pub storage_list_frames : Text → Bool → ℕ → M (List Main)
  unfolding next_frame continuation
  storage_list_frames path include_md5 filter_max_size =
      call (Content.storage_list_request path include_md5 filter_max_size) 2500
      >>= next_frame (continuation max_iterations)

  unfoldable pub storage_list : Text → Bool → ℕ → M (List Text)
  storage_list path include_md5 filter_max_size = do
    frames ← storage_list_frames path include_md5 filter_max_size
    pure (names_of (all_files frames))

  unfoldable pub storage_list_detailed : Text → Bool → ℕ → M (List Entry)
  storage_list_detailed path include_md5 filter_max_size = do
    frames ← storage_list_frames path include_md5 filter_max_size
    pure (entries_of include_md5 (all_files frames))
