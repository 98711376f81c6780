-- ===== src/Client/Expire.antt =====
-- Messages that were not answered in time: `mqtt_remove_send_message`, `mqtt_handle_timeout` and
-- `mqtt_loop_once` of src/sakura_mqtt_core.c.
pub mod Removal
use sakura_mqtt.Client.Keepalive.{close_sock}
use sakura_mqtt.Client.Request.{expiry}
use sakura_mqtt.Codec.Types.{type_pubcomp, type_connack, type_disconnect}
use sakura_mqtt.Client.Backup.{same_index, remove_backup_message}
use sakura_mqtt.Client.Tracker.{expects, is_free}
use sakura_mqtt.Client.Resend.{do_redeliver, redeliver_count, redeliver_message}
use sakura_mqtt.Client.Request.Disconnect.{is_sending}
use sakura_mqtt.Client.Send.{bad_index}
use sakura_mqtt.Common.Words.{add32, is_negative, ℤ}
use sakura_mqtt.Frame.{header_len, parse_header, Header}
use sakura_mqtt.Common.{
  set, zero, ◌&&◌, get_elem?, ◌+◌, none, false, ◌-◌, ltb, ◌%◌, suc, [], ◌==◌, Option, take, leb,
  some, ◌||◌, true, ◌++◌, length, drop, Bool, if◌then◌else◌, ◌∷◌, ℕ, List,
}
use sakura_mqtt.Client.State.{
  not_connected, sending, connect_error, async_called, finish, waiting, redeliver, stat_ok, emit,
  max_trackers, Callback, set_tracker, error, MsgState, Client, Tracker,
}

-- `mqtt_check_buffer`.
abbrev pub bad_frame : Header → (total : ℕ) → Bool
bad_frame h total =
    bad_index h.index || (leb 16 (h.msg_type % 256) || ltb total (add32 h.len header_len))

abbrev pub is_waiting : MsgState → Bool
is_waiting waiting = true
is_waiting _ = false

-- The memory of the send buffer that the walk still sees, after a removal: `memmove` takes what
-- follows the frame to its place, and the last bytes stay where they are.
abbrev pub moved : (msg_len : ℕ) → List ℕ → List ℕ
moved msg_len mem = drop msg_len mem ++ drop (length mem - msg_len) mem

-- The index byte of a frame that is being sent: MAX_MSG_STATE_ARRAY_LEN + 1.
abbrev pub unlinked : List ℕ → List ℕ
unlinked [] = []
unlinked (b ∷ bs) = 25 ∷ bs

abbrev pub removed_head : MsgState → (msg_len : ℕ) → List ℕ → List ℕ
removed_head state msg_len mem =
    if is_waiting state then moved msg_len mem else if is_sending state then unlinked mem else mem

abbrev pub removed_len : MsgState → (msg_len : ℕ) → ℕ
removed_len state msg_len = if is_waiting state then msg_len else 0

-- The walk of `mqtt_remove_send_message`: the memory from `msg_head` on, of `msg_size` bytes, and how
-- much `send.len` has shrunk. After a removal the walk goes on by the length of what was removed,
-- though what followed it stands where it was.
unfoldable pub remove_loop : (fuel : ℕ) → (key : ℕ) → MsgState → (mem : List ℕ) → List ℕ × ℕ
remove_loop fuel key state [] = ([], 0)
remove_loop zero key state (b ∷ bs) = (b ∷ bs, 0)
remove_loop (suc fuel) key state (b ∷ bs) =
    let h : Header = parse_header (b ∷ bs) in
    let msg_len : ℕ = add32 h.len header_len in
    let hit : Bool = same_index h.index key in
    let mem : List ℕ = if hit then removed_head state msg_len (b ∷ bs) else b ∷ bs in
    let (rest, less) = remove_loop fuel key state (drop msg_len mem) in
    if bad_frame h (length (b ∷ bs))
    then (b ∷ bs, 0)
    else (take msg_len mem ++ rest, (if hit then removed_len state msg_len else 0) + less)

-- What is left of the send buffer: its first `send.len` bytes. (A length field that has wrapped around
-- to 0 keeps the source in its loop for ever.)
unfoldable pub remove_send_message : List ℕ → (key : ℕ) → MsgState → List ℕ
unfolding remove_loop
remove_send_message send key state =
    let (mem, less) = remove_loop (length send) key state send in take (length send - less) mem

abbrev pub has_backup : Tracker → Bool
has_backup t = leb 16 t.redeliver_opt

abbrev pub may_redeliver : Tracker → Bool
may_redeliver t =
    (has_backup t || expects t.expect_type type_pubcomp)
    && ltb (t.redeliver_opt % 16) redeliver_count

abbrev pub is_buffered : MsgState → Bool
is_buffered waiting = true
is_buffered sending = true
is_buffered _ = false

abbrev pub call_async : Client → Callback → (code : ℤ) → Client
call_async c none code = c
call_async c (some cb) code = emit c (async_called cb c.index code)

-- The message in tracker `idx` is given up.
abbrev pub dropped : Client → (idx : ℕ) → Tracker → Client
dropped c idx t = record (call_async c t.callback error) {
  send = if is_buffered t.state then remove_send_message c.send idx t.state else c.send;
  backup = if has_backup t then remove_backup_message c.backup idx else c.backup;
  state = if expects t.expect_type type_connack then connect_error else c.state;
  trackers = set c.trackers idx (record t { state = MsgState.free });
}

abbrev pub error_or_ok : Client × ℤ → Client × ℤ
error_or_ok (c, ret) = (c, if is_negative ret then error else stat_ok)

unfoldable pub handle_timeout : Client → (idx : ℕ) → Tracker → Client × ℤ
unfolding remove_send_message
handle_timeout c idx t =
    if may_redeliver t
    then error_or_ok (
        redeliver_message (set_tracker c idx (record t { expired_tick = expiry c })) idx
          (record t { expired_tick = expiry c }))
    else (dropped c idx t, stat_ok)

-- A finished message: its tracker is free, then the application is called.
abbrev pub closed_after : Client → (message_type : ℕ) → Client
closed_after c message_type =
    if message_type == type_disconnect
    then record (close_sock c c.sock) { state = not_connected }
    else c

unfoldable pub finish_one : Client → (idx : ℕ) → Tracker → Client
finish_one c idx t =
    closed_after
      (call_async (set_tracker c idx (record t { state = MsgState.free })) t.callback t.ret_code)
      t.message_type

abbrev pub is_finish : MsgState → Bool
is_finish finish = true
is_finish _ = false

abbrev pub is_redeliver : MsgState → Bool
is_redeliver redeliver = true
is_redeliver _ = false

-- One round of the loop of `mqtt_loop_once`, for the tracker at `idx`. `ret` is the result so far.
unfoldable pub check_tracker : Client → (ret : ℤ) → (idx : ℕ) → Tracker → Client × ℤ
unfolding handle_timeout finish_one
check_tracker c ret idx t =
    if is_free t.state
    then (c, ret)
    else if is_finish t.state
    then (finish_one c idx t, ret)
    else if ltb t.expired_tick c.tick
    then handle_timeout c idx t
    else if is_redeliver t.state && ltb (t.redeliver_opt % 16) redeliver_count
    then do_redeliver c idx t
    else (c, ret)

abbrev pub check_at : Client → (ret : ℤ) → (idx : ℕ) → Option Tracker → Client × ℤ
check_at c ret idx none = (c, ret)
check_at c ret idx (some t) = check_tracker c ret idx t

-- The trackers from `idx` on, `places` of them, until a result is negative.
unfoldable pub loop_from : (places idx : ℕ) → Client × ℤ → Client × ℤ
unfolding check_tracker
loop_from zero idx (c, ret) = (c, ret)
loop_from (suc places) idx (c, ret) =
    let next = loop_from places (idx + 1) (check_at c ret idx (get_elem? c.trackers idx)) in
    if is_negative ret then (c, ret) else next

unfoldable pub loop_once : Client → Client × ℤ
unfolding loop_from
loop_once c = loop_from max_trackers 0 (c, stat_ok)
