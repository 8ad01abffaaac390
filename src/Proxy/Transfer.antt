-- ===== src/Proxy/Transfer.antt =====
-- scripts/proxy.py: upload, download, spoiled, ls, mkdir and delete.
use taihu.Base.{
  ℕ, zero, suc, ◌-◌, min, Bool, not, ◌&&◌, ◌||◌, Option, none, some, List, [], ◌∷◌, ◌++◌,
  if◌then◌else◌, Text, lit, has, is_empty, ℤ, pos, negsuc, parse_int, length, take, drop,
}
use taihu.Json.{Json, int, str, arr, obj, Items, nil, cons, Fields, end, field}
use taihu.Files.Tree.{
  FilePath, Tree, Node, dir, file, node_at, is_dir, exists, parent, make_dirs, write_file,
  remove_tree, list_dir,
}
use taihu.Proxy.Request.{
  Request, World, Reply, crashed, sent, download, error_of, param, text_or, Process, spoiled,
}
use taihu.Proxy.Paths.{resolve, segments}

-- What the machine is, apart from the single request: `str` of lists and dicts, UTF-8 decoding, the
-- message of an OSError about a path, the paths that may not be changed and those that may not be
-- read, `float` as a test, and the run of a command with its timeout and working directory.
pub record Host : Type 0 where
  pub repr : Json → Text
  pub decode : List ℕ → Text
  pub os_message : Text → Text
  pub denied : FilePath → Bool
  pub unreadable : FilePath → Bool
  pub is_float : Text → Bool
  pub process : Text → Text → Option Text → Process

pub record Server : Type 0 where
  pub token : Option Text
  pub root : Text

abbrev pub chunk_size : ℕ
chunk_size = 65536

-- The loop over the body, on as much fuel as there are bytes to read.
unfoldable pub read_body : ℕ → ℕ → List ℕ → List ℕ
read_body zero remaining stream = []
read_body (suc fuel) zero stream = []
read_body (suc fuel) (suc n) [] = []
read_body (suc fuel) (suc n) (b ∷ stream) =
    let k = min chunk_size (suc n) in
    let chunk = take k (b ∷ stream) in
    chunk ++ read_body fuel (suc n - length chunk) (drop k (b ∷ stream))

abbrev pub size_of : ℤ → ℕ
size_of (pos n) = n
size_of (negsuc n) = 0

-- The file name behind the last slash, for the header of a download.
abbrev pub os_failure : Host → Text → Reply
os_failure host target = error_of 500 1 (host.os_message target)

module _ (host : Host) (server : Server) where
  -- `_require_path`
  unfoldable pub require_path : Fields → Option Text
  require_path qs =
      let p = param host.repr qs (lit "path") [] in
      if is_empty p then none else some (resolve host.decode server.root p)

  abbrev pub no_path : World → Reply × World
  no_path w = (error_of 400 400 (lit "缺少 path 参数"), w)

  -- The directory of the target, made if it is missing; `none` is an OSError.
  unfoldable pub ensure_parent : FilePath → Tree → Option Tree
  ensure_parent p t =
      if is_dir t (parent p)
      then some t
      else if host.denied (parent p)
      then none
      else make_dirs (parent p) t

  abbrev pub stored : Text → List ℕ → World → Option Tree → Reply × World
  stored target content w none = (os_failure host target, w)
  stored target content w (some t) = (
    sent 200 (
        field (lit "code") (int (pos 0))
          (field (lit "path") (str target) (field (lit "size") (int (pos (length content))) end))),
    record w { tree = t },
  )

  -- The open and the writes, once the length is known.
  unfoldable pub store_body : Text → List ℕ → Option ℤ → World → Reply × World
  store_body target stream none w = (error_of 500 1 (host.os_message target), w)
  store_body target stream (some n) w =
      let content = read_body (size_of n) (size_of n) stream in
      if host.denied (segments target)
      then (os_failure host target, w)
      else stored target content w (write_file (segments target) content w.tree)

  unfoldable pub upload_to : Text → Request → World → Option Tree → Reply × World
  upload_to target r w none = (os_failure host target, w)
  upload_to target r w (some t) =
      store_body target r.stream (parse_int (text_or (lit "0") r.content_length))
        (record w { tree = t })

  -- The directories above the first part with a NUL, which are made before a system call with that part
  -- raises a ValueError.
  unfoldable pub before_nul : FilePath → FilePath
  before_nul [] = []
  before_nul (a ∷ p) = let rest = before_nul p in if has 0 a then [] else a ∷ rest

  -- The ValueError of a NUL is caught.
  abbrev pub refused_after : Text → World → Option Tree → Reply × World
  refused_after target w none = (os_failure host target, w)
  refused_after target w (some t) = (os_failure host target, record w { tree = t })

  unfoldable pub upload_nul : Text → FilePath → World → Reply × World
  upload_nul target p w =
      if exists w.tree p || host.denied p
      then (os_failure host target, w)
      else refused_after target w (make_dirs p w.tree)

  unfoldable pub handle_upload : Request → World → Reply × World
  handle_upload r w = elim (require_path r.query) [
    | none ↦ no_path w
    | some target ↦
        if has 0 target
        then upload_nul target (before_nul (segments target)) w
        else upload_to target r w (ensure_parent (segments target) w.tree)
  ]

  -- The headers of a file, and its bytes or the error of an `open` that is refused.
  unfoldable pub content_reply : Text → List ℕ → Reply
  content_reply target content =
      if host.unreadable (segments target)
      then spoiled target (
          field (lit "code") (int (pos 1)) (field (lit "error") (str (host.os_message target)) end))
      else download target content

  unfoldable pub download_node : Text → Option Node → Reply
  download_node target none = error_of 404 404 (lit "文件不存在: " ++ target)
  download_node target (some dir) = error_of 400 400 (lit "是目录，请用 /ls 列目录")
  download_node target (some (file content)) = content_reply target content

  unfoldable pub handle_download : Request → World → Reply × World
  handle_download r w = elim (require_path r.query) [
    | none ↦ no_path w
    | some target ↦ (download_node target (node_at w.tree (segments target)), w)
  ]

  -- An entry of a listing; the time stamp is left out.
  unfoldable pub entry_of : Text → Option Node → Fields
  entry_of name (some (file content)) =
      field (lit "name") (str name) (
        field (lit "type") (str (lit "file")) (field (lit "size") (int (pos (length content))) end))
  entry_of name _ =
      field (lit "name") (str name)
        (field (lit "type") (str (lit "dir")) (field (lit "size") (int (pos 0)) end))

  unfoldable pub entries_of : FilePath → Tree → List Text → Items
  entries_of p t [] = nil
  entries_of p t (name ∷ names) =
      cons (obj (entry_of name (node_at t (p ++ (name ∷ []))))) (entries_of p t names)

  unfoldable pub handle_ls : Request → World → Reply × World
  handle_ls r w = elim (require_path r.query) [
    | none ↦ no_path w
    | some target ↦
        let p = segments target in
        if is_dir w.tree p
        then (
          sent 200 (
              field (lit "code") (int (pos 0)) (
                field (lit "path") (str target)
                  (field (lit "entries") (arr (entries_of p w.tree (list_dir p w.tree))) end))),
          w,
        )
        else (error_of 404 404 (lit "目录不存在: " ++ target), w)
  ]

  -- The answer to a change of the tree, which names the path under `key`.
  abbrev pub changed : Text → Text → World → Option Tree → Reply × World
  changed key target w none = (os_failure host target, w)
  changed key target w (some t) = (
    sent 200 (field (lit "code") (int (pos 0)) (field key (str target) end)),
    record w { tree = t },
  )

  -- Nothing catches the ValueError of a NUL.
  abbrev pub crashed_after : Text → World → Option Tree → Reply × World
  crashed_after target w none = (os_failure host target, w)
  crashed_after target w (some t) = (crashed, record w { tree = t })

  unfoldable pub mkdir_nul : Text → FilePath → World → Reply × World
  mkdir_nul target p w =
      if exists w.tree p
      then (crashed, w)
      else if host.denied p
      then (os_failure host target, w)
      else crashed_after target w (make_dirs p w.tree)

  unfoldable pub handle_mkdir : Request → World → Reply × World
  handle_mkdir r w = elim (require_path r.query) [
    | none ↦ no_path w
    | some target ↦
        if has 0 target
        then mkdir_nul target (before_nul (segments target)) w
        else if host.denied (segments target) && not (is_dir w.tree (segments target))
        then (os_failure host target, w)
        else changed (lit "path") target w (make_dirs (segments target) w.tree)
  ]

  unfoldable pub delete_at : Text → World → Reply × World
  delete_at target w =
      if not (exists w.tree (segments target))
      then (error_of 404 404 (lit "路径不存在: " ++ target), w)
      else if host.denied (segments target)
      then (os_failure host target, w)
      else changed (lit "deleted") target w (remove_tree (segments target) w.tree)

  unfoldable pub handle_delete : Request → World → Reply × World
  handle_delete r w = elim (require_path r.query) [
    | none ↦ no_path w
    | some target ↦ delete_at target w
  ]
