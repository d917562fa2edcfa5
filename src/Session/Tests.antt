-- ===== src/Session/Tests.antt =====
-- Runs of a switch of connections at concrete inputs.
use aws_advanced_python_wrap.Prelude.{
  ℕ, ◌≡◌, refl, ◌≢◌, ◌⊎◌, inl, inr, Bool, true, false, not, none, some, ◌==◌, if◌then◌else◌, arith,
}
use aws_advanced_python_wrap.Exec.{ok}
use aws_advanced_python_wrap.Session.Service.{
  Outside, Settings, State, Field, auto_commit, readonly, field, read_op, write_op, no_opinion,
}
use aws_advanced_python_wrap.Session.Connection.{set_current_connection}
use aws_advanced_python_wrap.Session.Transfer.{KeepsFlags}
use aws_advanced_python_wrap.Session.Switching.{
  set_current_connection-completes, set_current_connection-transfers,
}

-- The flags of every connection.
record Flags : Type 0 where
  autocommit_of : ℕ → Bool
  readonly_of : ℕ → Bool

abbrev put_at : ℕ → Bool → (ℕ → Bool) → ℕ → Bool
put_at c b f c' = if c' == c then b else f c'

abbrev driver : Outside Flags
driver = record {
  is_closed = λ c w. false;
  get_autocommit = λ c w. (ok (w.autocommit_of c), w);
  set_autocommit = λ c b w. (ok tt, record w { autocommit_of = put_at c b w.autocommit_of });
  is_read_only = λ c w. (ok (w.readonly_of c), w);
  set_read_only = λ c b w. (ok tt, record w { readonly_of = put_at c b w.readonly_of });
  in_transaction = λ c w. (ok false, w);
  rollback = λ c w. (ok tt, w);
  close = λ c w. (ok tt, w);
  notify = λ e w. (ok no_opinion, w);
  transfer_handler = none;
}

abbrev settings : Settings
settings = record {
  transfer_session_state_on_switch = true;
  reset_session_state_on_close = true;
  rollback_on_switch = true;
}

flag_of : Field → ℕ → Flags → Bool
flag_of auto_commit c w = w.autocommit_of c
flag_of readonly c w = w.readonly_of c

put_at_self : (c : ℕ) (b : Bool) (f : ℕ → Bool) → put_at c b f c ≡ b
put_at_self c b f = ground arith

put_at_other : (c c' : ℕ) (b : Bool) (f : ℕ → Bool) → c' ≢ c → put_at c b f c' ≡ f c'
put_at_other c c' b f ne = ground arith

write_frame_of :
    (fd fd' : Field) (c c' : ℕ) (b : Bool) (w : Flags)
    → (fd' ≢ fd) ⊎ (c' ≢ c)
    → flag_of fd' c' (write_op driver fd c b w).1 ≡ flag_of fd' c' w
unfolding flag_of write_op
write_frame_of auto_commit auto_commit c c' b w (inl ne) = elim (ne refl) [ ]
write_frame_of auto_commit auto_commit c c' b w (inr ne) = put_at_other c c' b w.autocommit_of ne
write_frame_of auto_commit readonly c c' b w ne = refl
write_frame_of readonly auto_commit c c' b w ne = refl
write_frame_of readonly readonly c c' b w (inl ne) = elim (ne refl) [ ]
write_frame_of readonly readonly c c' b w (inr ne) = put_at_other c c' b w.readonly_of ne

write_done_of : (fd : Field) (c : ℕ) (b : Bool) (w : Flags) → (write_op driver fd c b w).0 ≡ ok tt
unfolding write_op
write_done_of auto_commit c b w = refl
write_done_of readonly c b w = refl

write_self_of :
    (fd : Field) (c : ℕ) (b : Bool) (w : Flags) → flag_of fd c (write_op driver fd c b w).1 ≡ b
unfolding flag_of write_op
write_self_of auto_commit c b w = put_at_self c b w.autocommit_of
write_self_of readonly c b w = put_at_self c b w.readonly_of

read_done_of : (fd : Field) (c : ℕ) (w : Flags) → read_op driver fd c w ≡ (ok (flag_of fd c w), w)
unfolding flag_of read_op
read_done_of auto_commit c w = refl
read_done_of readonly c w = refl

driver-KeepsFlags : KeepsFlags driver
driver-KeepsFlags = record {
  flag = flag_of;
  write_done = write_done_of;
  write_self = write_self_of;
  write_frame = write_frame_of;
  read_done = read_done_of;
  rollback_frame = λ fd c c' w. refl;
  close_frame = λ fd c c' w. refl;
  notify_frame = λ fd e c' w. refl;
}

-- Connection 1 is current, with autocommit off and read-only on.
abbrev session : State Flags
session = record {
  session_state = record {
    auto_commit = record { value = some false; pristine_value = some true };
    readonly = record { value = some true; pristine_value = some false };
  };
  copy_session_state = none;
  current_connection = some 1;
  current_host_info = none;
  is_in_transaction = true;
  world = record { autocommit_of = λ c. not (c == 1); readonly_of = λ c. c == 1 };
}

one_ne_two : ◌≢◌ {A = ℕ} 1 2
one_ne_two = omega arith

set_current_connection-completes_example :
    (set_current_connection driver settings (some 2) none session).1.copy_session_state ≡ none
set_current_connection-completes_example =
    set_current_connection-completes driver settings (some 2) none session refl

set_current_connection-transfers_example :
    ((set_current_connection driver settings (some 2) none session).1.current_connection ≡ some 2)
    × ((set_current_connection driver settings (some 2) none session).1.current_host_info ≡ none)
    × (flag_of readonly 2 (set_current_connection driver settings (some 2) none session).1.world
        ≡ true)
unfolding field flag_of driver-KeepsFlags
set_current_connection-transfers_example =
    set_current_connection-transfers driver settings driver-KeepsFlags refl 1 2 one_ne_two none
      readonly true refl session refl refl refl
