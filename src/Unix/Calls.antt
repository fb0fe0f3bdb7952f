-- ===== src/Unix/Calls.antt =====
-- The calls of kernel/core/unix.c. A process that waits is in `sched_block_on`: what the others do
-- meanwhile is a parameter, and a call that is still waiting when its patience ends has no result.
use utms.Base.{
  map, ℕ, zero, suc, ◌+◌, ◌-◌, ◌%◌, Bool, true, false, not, ◌||◌, List, Option, none, some,
  if◌then◌else◌, ◌==◌, leb, get_or, set, take,
}
use utms.Base.Int.{ℤ, pos, negsuc}
use utms.Unix.State.{
  Sock, Unix, no_handle, at, put, wakeup, has_path, find_socket_by_path, alloc_socket, find_fd,
  sock_of, unix_max_path, backlog_size, blank,
}

-- What a call returns: -1, a number of at least 0, or nothing yet.
pub data Result : Type 0 where
  failed : Result
  done : ℕ → Result
  waiting : Result

-- What happens while a process is blocked on a channel; the second argument is the patience left.
pub record World : Type 0 where
  pub block : ℕ → ℕ → Unix → Unix
  pub patience : ℕ

unfoldable pub init : Unix → Unix
init u = record u { sockets = map (λ (s : Sock). blank) u.sockets }

abbrev pub open_fd : ℕ → ℕ → Unix → Unix
open_fd fd i u = record u {
  fds = set u.fds fd (record { used = true; is_unix = true; sock = some i });
}

-- The descriptor for a new socket. A socket for which there is none is lost.
unfoldable pub attach : ℕ → Unix → Unix × Result
attach i u =
    if u.has_process
    then elim (find_fd u) [ none ↦ (u, failed) | some fd ↦ (open_fd fd i u, done fd) ]
    else (u, failed)

unfoldable pub create_from : Unix × Option ℕ → Unix × Result
unfolding attach
create_from (u, none) = (u, failed)
create_from (u, some i) = attach i u

-- `unix_socket_create`
unfoldable pub create : Unix → Unix × Result
create u = create_from (alloc_socket u)

unfoldable pub bind : ℤ → List ℕ → Unix → Unix × Result
bind fd path u = elim (sock_of fd u) [
  | none ↦ (u, failed)
  | some i ↦ if (at u i).closed then (u, failed) else elim (find_socket_by_path path u) [
    | some j ↦ (u, failed)
    | none ↦ (put i (record (at u i) { path = take (unix_max_path - 1) path }) u, done 0)
  ]
]

unfoldable pub listen_on : ℤ → Unix → Unix × Result
listen_on fd u = elim (sock_of fd u) [
  | none ↦ (u, failed)
  | some i ↦ if (at u i).closed || not (has_path (at u i)) then (u, failed) else (
    put i
        (record (at u i) {
          listening = true;
          backlog_count = 0;
          backlog_head = 0;
          backlog_tail = 0;
        })
        u,
    done 0,
  )
]

-- The wait of `unix_accept`: whether a client came (`some true`), the socket was closed
-- (`some false`), or the patience ended.
unfoldable pub wait_client : World → ℕ → ℕ → Unix → Unix × Option Bool
wait_client w i zero u = (u, none)
wait_client w i (suc left) u = elim ((at u i).backlog_count == 0) [
  | false ↦ (u, some true)
  | true ↦ elim (at u i).closed [
    | true ↦ (u, some false)
    | false ↦ wait_client w i left (w.block i left u)
  ]
]

-- The oldest waiting client leaves the backlog.
unfoldable pub take_client : ℕ → Unix → Unix × ℕ
take_client i u = (
  put i
      (record (at u i) {
        backlog_head = ((at u i).backlog_head + 1) % backlog_size;
        backlog_count = (at u i).backlog_count - 1;
      })
      u,
  get_or (at u i).backlog (at u i).backlog_head 0,
)

abbrev pub pair : ℕ → ℕ → Unix → Unix
pair new client u =
    let u1 = put new (record (at u new) { connected = true; peer = some client }) u in
    put client (record (at u1 client) { peer = some new; connected = true }) u1

-- The new end of a connection, its descriptor, and the wake-up of the client.
unfoldable pub conclude_accept : ℕ → Unix × Option ℕ → Unix × Result
conclude_accept client (u, none) = (u, failed)
conclude_accept client (u, some new) =
    let u1 = pair new client u in
    elim (find_fd u1) [
      | none ↦ (put new (record (at u1 new) { closed = true }) u1, failed)
      | some fd ↦ (wakeup client (open_fd fd new u1), done fd)
    ]

unfoldable pub accept_next : ℕ → Unix → Unix × Result
accept_next i u = let (u1, client) = take_client i u in conclude_accept client (alloc_socket u1)

unfoldable pub accept_after : ℕ → Unix × Option Bool → Unix × Result
accept_after i (u, none) = (u, waiting)
accept_after i (u, some false) = (u, failed)
accept_after i (u, some true) = accept_next i u

-- `unix_accept`
unfoldable pub accept : World → ℤ → Unix → Unix × Result
accept w fd u = elim (sock_of fd u) [
  | none ↦ (u, failed)
  | some i ↦
      if (at u i).closed || not (at u i).listening
      then (u, failed)
      else accept_after i (wait_client w i w.patience u)
]

-- The wait of `unix_connect`.
unfoldable pub wait_connected : World → ℕ → ℕ → Unix → Unix × Result
wait_connected w i zero u = (u, waiting)
wait_connected w i (suc left) u = elim (at u i).closed [
  | true ↦ (u, failed)
  | false ↦ elim (at u i).connected [
    | true ↦ (u, done 0)
    | false ↦ wait_connected w i left (w.block i left u)
  ]
]

-- The client `i` joins the backlog of the server `j`.
unfoldable pub queue_client : ℕ → ℕ → Unix → Unix
queue_client i j u = wakeup j (
    put j
      (record (at u j) {
        backlog = set (at u j).backlog (at u j).backlog_tail i;
        backlog_tail = ((at u j).backlog_tail + 1) % backlog_size;
        backlog_count = (at u j).backlog_count + 1;
      })
      u)

-- `unix_connect`
unfoldable pub connect : World → ℤ → List ℕ → Unix → Unix × Result
connect w fd path u = elim (sock_of fd u) [
  | none ↦ (u, failed)
  | some i ↦ if (at u i).closed then (u, failed) else elim (find_socket_by_path path u) [
    | none ↦ (u, failed)
    | some j ↦
        if not (at u j).listening || leb backlog_size (at u j).backlog_count
        then (u, failed)
        else wait_connected w i w.patience (queue_client i j u)
  ]
]

-- `sock->peer->peer = NULL`, and its wake-up.
unfoldable pub part : Option ℕ → Unix → Unix
part none u = u
part (some j) u = wakeup j (put j (record (at u j) { peer = none }) u)

unfoldable pub shut : ℕ → Unix → Unix
shut i u = let u1 = wakeup i (put i (record (at u i) { closed = true }) u) in part (at u1 i).peer u1

abbrev pub drop_fd : ℕ → Unix → Unix
drop_fd fd u = record u {
  fds = set u.fds fd (record (get_or u.fds fd no_handle) { used = false; sock = none });
}

-- `unix_close`
unfoldable pub close : ℤ → Unix → Unix × Result
close (negsuc n) u = (u, failed)
close (pos fd) u = elim (sock_of (pos fd) u) [
  | none ↦ (u, failed)
  | some i ↦ (drop_fd fd (shut i u), done 0)
]
