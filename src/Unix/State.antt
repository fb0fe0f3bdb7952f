-- ===== src/Unix/State.antt =====
-- `unix_socket_t`, the table of sockets, and the descriptors of the process that calls.
use utms.Base.{
  ℕ, ◌+◌, Bool, true, false, not, ◌&&◌, List, [], ◌∷◌, ◌++◌, Option, none, some, if◌then◌else◌,
  ◌==◌, ◌!=◌, ltb, find_index, get_or, set, replicate,
}
use utms.Base.Int.{ℤ, pos, negsuc}

-- A pointer to a socket is its index in the table. `path` holds the bytes before the NUL.
pub record Sock : Type 0 where
  pub id : ℕ
  pub path : List ℕ
  pub listening : Bool
  pub connected : Bool
  pub closed : Bool
  pub peer : Option ℕ
  pub write_buf : List ℕ
  pub write_pos : ℕ
  pub write_len : ℕ
  pub backlog : List ℕ
  pub backlog_count : ℕ
  pub backlog_head : ℕ
  pub backlog_tail : ℕ

abbrev pub max_unix_sockets : ℕ
max_unix_sockets = 64

abbrev pub unix_max_path : ℕ
unix_max_path = 108

abbrev pub unix_buf_size : ℕ
unix_buf_size = 4096

abbrev pub backlog_size : ℕ
backlog_size = 16

-- `memset(s, 0, sizeof(unix_socket_t))`
abbrev pub blank : Sock
blank = record {
  id = 0;
  path = [];
  listening = false;
  connected = false;
  closed = false;
  peer = none;
  write_buf = replicate unix_buf_size 0;
  write_pos = 0;
  write_len = 0;
  backlog = replicate backlog_size 0;
  backlog_count = 0;
  backlog_head = 0;
  backlog_tail = 0;
}

-- A descriptor: whether it is used, whether its type is FD_TYPE_UNIX, and its socket.
pub record Handle : Type 0 where
  pub used : Bool
  pub is_unix : Bool
  pub sock : Option ℕ

abbrev pub no_handle : Handle
no_handle = record { used = false; is_unix = false; sock = none }

-- `sockets`, `next_socket_id`, whether a process is current, its descriptors, and the channels
-- woken so far, the latest last.
pub record Unix : Type 0 where
  pub sockets : List Sock
  pub next_socket_id : ℕ
  pub has_process : Bool
  pub fds : List Handle
  pub woken : List ℕ

abbrev pub at : Unix → ℕ → Sock
at u i = get_or u.sockets i blank

abbrev pub put : ℕ → Sock → Unix → Unix
put i s u = record u { sockets = set u.sockets i s }

abbrev pub wakeup : ℕ → Unix → Unix
wakeup i u = record u { woken = u.woken ++ (i ∷ []) }

-- `strcmp(a, b) == 0`
abbrev pub same_path : List ℕ → List ℕ → Bool
same_path [] [] = true
same_path [] (b ∷ bs) = false
same_path (a ∷ rest) [] = false
same_path (a ∷ rest) (b ∷ bs) = (a == b) && same_path rest bs

abbrev pub has_path : Sock → Bool
has_path s = elim s.path [ [] ↦ false | ◌∷◌ b bs ↦ true ]

-- `find_socket_by_path`
unfoldable pub find_socket_by_path : List ℕ → Unix → Option ℕ
find_socket_by_path path u =
    find_index (λ (s : Sock). s.id != 0 && (not s.closed && (has_path s && same_path s.path path)))
      u.sockets

unfoldable pub find_free : Unix → Option ℕ
find_free u = find_index (λ (s : Sock). s.id == 0) u.sockets

-- `alloc_socket`
unfoldable pub alloc_socket : Unix → Unix × Option ℕ
unfolding find_free
alloc_socket u = elim (find_free u) [
  | none ↦ (u, none)
  | some i ↦ (
    record u {
      sockets = set u.sockets i (record blank { id = u.next_socket_id });
      next_socket_id = u.next_socket_id + 1;
    },
    some i,
  )
]

-- The first descriptor that is not used.
unfoldable pub find_fd : Unix → Option ℕ
find_fd u = find_index (λ (h : Handle). not h.used) u.fds

-- The checks that every call makes on its descriptor.
unfoldable pub sock_of : ℤ → Unix → Option ℕ
sock_of (negsuc n) u = none
sock_of (pos fd) u =
    let h = get_or u.fds fd no_handle in
    if u.has_process && (ltb fd 32 && (h.used && h.is_unix)) then h.sock else none
