-- ===== src/Server/Transfers.antt =====
-- internal/server/transfers.go: files pushed to a client and pulled from one. The compressor and
-- SHA-256 are parameters. `ServerError` stands for the status of an answer.
pub mod Dispatch
use claude_backup.Prelude.{
  Text, codes, text_eq, ℕ, ◌^◌, ◌+◌, take, length, pos, Bool, true, false, not, ◌&&◌, ◌||◌, Option,
  none, some, List, [], ◌∷◌, trim_space, replace_byte, path_base, if◌then◌else◌,
}
use claude_backup.Proto.{
  Status, Direction, queued, running, success, error, cancelled, unset, pull, push_file, pull_file,
  cancel_transfer,
}
use claude_backup.Store.{Transfer}
use claude_backup.Store.Agents.{get_agent}
use claude_backup.Store.Transfers.{
  create_transfer, set_transfer_payload, get_transfer, queued_transfers, mark_transfer_started,
  finish_transfer, delete_transfer,
}
use claude_backup.Storage.{Bytes, put, get, remove}
use claude_backup.Storage.Keys.{transfer_key}
use claude_backup.Server.{
  Server, Result, ok, err, not_found, bad_request, conflict, agent_offline, not_in_progress,
  storage_error, database_error, fresh_id, use_id, with_store, is_online, send_to,
  client_not_reached, cancelled_early,
}

-- The backend's Delete, its error ignored.
unfoldable pub discard_object : Text → Server → Server
discard_object key s = let (done, o) = remove key s.objects in record s { objects = o }

abbrev pub is_pull : Direction → Bool
is_pull pull = true
is_pull _ = false

abbrev pub is_success : Status → Bool
is_success success = true
is_success _ = false

-- Where the command cannot be sent, the transfer fails.
unfoldable pub dispatch_transfer : Transfer → Server → Server
dispatch_transfer t s =
    let message =
      if is_pull t.direction
      then pull_file t.id t.source_path
      else push_file t.id t.dest_path t.filename t.hash (pos t.size) (pos t.mode) t.overwrite in
    let (sent, s') = send_to t.agent_id message s in
    if sent
    then s'
    else with_store (finish_transfer t.id error [] client_not_reached s'.now s'.store) s'

abbrev cancel_by_status : Transfer → Status → Server → Result (Unit {0}) × Server
cancel_by_status t queued s =
    (ok tt, with_store (finish_transfer t.id cancelled [] cancelled_early s.now s.store) s)
cancel_by_status t running s =
    let (sent, s') = send_to t.agent_id (cancel_transfer t.id) s in
    (if sent then ok tt else err agent_offline, s')
cancel_by_status t _ s = (err not_in_progress, s)

unfoldable pub cancel_transfer_by_id : Text → Server → Result (Unit {0}) × Server
cancel_transfer_by_id id s = elim (get_transfer id s.store) [
  | none ↦ (err not_found, s)
  | some t ↦ cancel_by_status t t.status s
]

-- The record first, then its payload; a payload that cannot be deleted is left behind.
unfoldable pub delete_transfer_by_id : Text → Server → Result (Unit {0}) × Server
unfolding discard_object
delete_transfer_by_id id s = elim (delete_transfer id s.store) [
  | none ↦ (err not_found, s)
  | some (key, t) ↦
      (ok tt, let s' = with_store t s in if text_eq key [] then s' else discard_object key s')
]

unfoldable pub dispatch_queued_transfer : Transfer → Server → Server
unfolding dispatch_transfer
dispatch_queued_transfer t s =
    dispatch_transfer t (with_store (mark_transfer_started t.id s.now s.store) s)

unfoldable pub dispatch_transfers : List Transfer → Server → Server
dispatch_transfers [] s = s
dispatch_transfers (t ∷ ts) s = dispatch_transfers ts (dispatch_queued_transfer t s)

unfoldable pub dispatch_pending_transfers : Text → Server → Server
dispatch_pending_transfers agent_id s = dispatch_transfers (queued_transfers agent_id s.store) s

unfoldable pub transfer_belongs_to : Text → Text → Server → Bool
transfer_belongs_to id agent_id s = elim (get_transfer id s.store) [
  | none ↦ false
  | some t ↦ text_eq t.agent_id agent_id
]

-- The names that stand for no file.
abbrev pub is_no_name : Text → Bool
is_no_name n = text_eq n (codes ".") || text_eq n (codes "/") || text_eq n []

-- The base name of what a browser or an operator wrote, with either separator.
unfoldable pub base_name : Text → Text
base_name path = path_base (replace_byte 0x5c b'/' path)

abbrev pub file_name_or_default : Text → Text
file_name_or_default n = if is_no_name n then codes "uploaded.bin" else n

-- Online, the transfer starts at once.
abbrev pub status_when : Bool → Status
status_when true = running
status_when false = queued

abbrev blank_transfer : Text → Text → Text → Status → Transfer
blank_transfer id agent_id filename status = record {
  id = id;
  agent_id = agent_id;
  direction = unset;
  filename = filename;
  dest_path = [];
  source_path = [];
  size = 0;
  hash = [];
  object_key = transfer_key id;
  mode = 0;
  overwrite = false;
  status = status;
  error = [];
  written_path = [];
  bytes_done = pos 0;
  created_at = 0;
  started_at = 0;
  finished_at = 0;
}

unfoldable pub new_pull : Text → Text → Text → Text → Bool → Transfer
new_pull id agent_id src filename there =
    record (blank_transfer id agent_id filename (status_when there)) {
      direction = pull;
      source_path = src;
    }

-- Answers with the id, and whether the transfer waits.
unfoldable pub create_pull : Text → Text → Text → Server → Result (Text × Bool) × Server
unfolding dispatch_transfer new_pull
create_pull agent_id src filename s =
    let id = fresh_id s in
    let there = is_online agent_id s in
    let t = new_pull id agent_id src filename there in
    elim (create_transfer t s.now s.store) [
      | none ↦ (err database_error, use_id s)
      | some st ↦
          let s' = use_id (with_store st s) in
          (ok (id, not there), if there then dispatch_transfer t s' else s')
    ]

-- `source_path` is the field of the request's body.
unfoldable pub handle_transfer_pull : Text → Text → Server → Result (Text × Bool) × Server
unfolding create_pull base_name
handle_transfer_pull agent_id source_path s = elim (get_agent agent_id s.store) [
  | none ↦ (err not_found, s)
  | some a ↦
      let src = trim_space source_path in
      let filename = base_name src in
      if text_eq src []
      then (err bad_request, s)
      else if is_no_name filename
      then (err bad_request, s)
      else create_pull agent_id src filename s
]

module _ (compress : Bytes → Bytes) (sha256_hex : Bytes → Text) where
  -- `none` where the backend fails; what it may have stored is deleted.
  unfoldable pub store_transfer_payload : Text → Bytes → Server → Option (Text × ℕ) × Server
  unfolding discard_object
  store_transfer_payload key src s =
      let (stored, o) = put key (compress src) s.objects in
      let s' = record s { objects = o } in
      if stored then (some (sha256_hex src, length src), s') else (none, discard_object key s')

  unfoldable pub new_push : Text → Text → Text → Text → Text × ℕ → Bool → Bool → Transfer
  new_push id agent_id dest filename (hash, size) overwrite there =
      record (blank_transfer id agent_id filename (status_when there)) {
        dest_path = dest;
        size = size;
        hash = hash;
        overwrite = overwrite;
      }

  unfoldable pub create_push :
      Text → Text → Text → Bool → Bytes → Server → Result (Text × Bool) × Server
  unfolding store_transfer_payload dispatch_transfer new_push discard_object
  create_push agent_id dest filename overwrite file s =
      let id = fresh_id s in
      let key = transfer_key id in
      let (payload, s') = store_transfer_payload key file (use_id s) in
      elim payload [
        | none ↦ (err storage_error, s')
        | some p ↦
            let there = is_online agent_id s' in
            let t = new_push id agent_id dest filename p overwrite there in
            elim (create_transfer t s'.now s'.store) [
              | none ↦ (err database_error, discard_object key s')
              | some st ↦ (
                ok (id, not there),
                if there then dispatch_transfer t (with_store st s') else with_store st s',
              )
            ]
      ]

  -- The fields of the form; `file` is `none` where the form has none. A form that is too large or
  -- malformed is refused before.
  unfoldable pub handle_transfer_create :
      Text → Text → Text → Option (Text × Bytes) → Server → Result (Text × Bool) × Server
  unfolding create_push base_name
  handle_transfer_create agent_id dest_path overwrite file s = elim (get_agent agent_id s.store) [
    | none ↦ (err not_found, s)
    | some a ↦
        let dest = trim_space dest_path in
        let over = text_eq overwrite (codes "1") || text_eq overwrite (codes "true") in
        if text_eq dest [] then (err bad_request, s) else elim file [
          | none ↦ (err bad_request, s)
          | some (name, content) ↦
              create_push agent_id dest (file_name_or_default (base_name name)) over content s
        ]
  ]

-- transferMaxBytes and one MiB
abbrev upload_limit : ℕ
upload_limit = 2 ^ 31 + 2 ^ 20

module _ (inflate : Bytes → Option Bytes) (sha256_hex : Bytes → Text) where
  -- The stored payload of a pull that succeeded, decompressed.
  unfoldable pub handle_transfer_download : Text → Server → Result Bytes × Server
  handle_transfer_download id s = elim (get_transfer id s.store) [
    | none ↦ (err not_found, s)
    | some t ↦
        if not (is_pull t.direction && is_success t.status)
        then (err conflict, s)
        else let (content, o) = get t.object_key s.objects in
          let s' = record s { objects = o } in
          (
            elim content [
              | none ↦ err not_found
              | some b ↦ elim (inflate b) [ none ↦ err storage_error | some raw ↦ ok raw ]
            ],
            s',
          )
  ]

  abbrev finish_upload : Transfer → Bool → Option Bytes → Server → Result (Unit {0}) × Server
  finish_upload t true (some raw) s =
      (ok tt, with_store (set_transfer_payload t.id (sha256_hex raw) (length raw) s.store) s)
  finish_upload t _ _ s = (err bad_request, discard_object t.object_key s)

  -- What is read of the body, up to its limit, is stored while a copy of it is decompressed.
  unfoldable pub handle_transfer_upload : Text → Bytes → Text → Server → Result (Unit {0}) × Server
  unfolding discard_object
  handle_transfer_upload id body agent_id s = elim (get_transfer id s.store) [
    | none ↦ (err not_found, s)
    | some t ↦
        if not (text_eq t.agent_id agent_id)
        then (err not_found, s)
        else if not (is_pull t.direction)
        then (err bad_request, s)
        else let content = take upload_limit body in
          let (stored, o) = put t.object_key content s.objects in
          finish_upload t stored (inflate content) (record s { objects = o })
  ]

-- The payload as it is stored, for the agent that it is addressed to.
unfoldable pub handle_transfer_content : Text → Text → Server → Result Bytes × Server
handle_transfer_content id agent_id s = elim (get_transfer id s.store) [
  | none ↦ (err not_found, s)
  | some t ↦
      if not (text_eq t.agent_id agent_id)
      then (err not_found, s)
      else let (content, o) = get t.object_key s.objects in
        (elim content [ none ↦ err not_found | some b ↦ ok b ], record s { objects = o })
]
