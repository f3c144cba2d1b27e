-- ===== src/Sched/User/Examples.antt =====
-- The theorems on sched/lib in a world of two page tables.
use sistemas_operativos.Prelude.{
  ℕ, zero, suc, ◌+◌, ◌*◌, ◌-◌, ◌/◌, ◌≡◌, refl, true, not, ◌&&◌, ◌==◌, if◌then◌else◌, arith, ap, inl,
}
use sistemas_operativos.Sched.Memory.Defs.{
  Ret, val, err, inval, no_mem, or_p, or_u, ipc_not_recv, pte_w, pg_size,
}
use sistemas_operativos.Sched.Memory.Tables.{rounddown}
use sistemas_operativos.Sched.User.Calls.{Back, back, Calls}
use sistemas_operativos.Sched.User.Fork.{exception_page, pgfault, replace_page}
use sistemas_operativos.Sched.User.Entries.{Plain, remap, put, Sharing}
use sistemas_operativos.Sched.User.Cow.{pgfault-replaces}
use sistemas_operativos.Sched.User.Ipc.{IpcCalls, ipc_send}
use sistemas_operativos.Sched.User.Send.{Tries, taken, not_yet, ipc_send-Tries}

-- The entries of the caller and of its child, and how many pages are free.
record Pair : Type 0 where
  own : ℕ → ℕ
  child : ℕ → ℕ
  free_pages : ℕ

-- A mapping into environment 0, the caller, or into the child, which refuses PTE_W for a page that is not writeable
-- and completes the permissions with PTE_P and PTE_U, as the kernel does.
abbrev map_page : ℕ → ℕ → ℕ → ℕ → ℕ → Pair → Back Pair Ret
map_page from source to target perm w =
    let pte = w.own (source / pg_size) in
    let entry = remap pte (or_p (or_u perm)) in
    if pte_w perm && not (pte_w pte)
    then back (err inval) w
    else back (val 0) (
        if to == 0
        then record w { own = put w.own (target / pg_size) entry }
        else record w { child = put w.child (target / pg_size) entry })

abbrev world_calls : Calls Pair
world_calls = record {
  uvpd = λ w i. 7;
  uvpt = λ w. w.own;
  sys_page_alloc = λ envid va perm w.
      if w.free_pages == 0
      then back (err no_mem) w
      else back (val 0) (record w {
        child = put w.child (va / pg_size) (pg_size + perm);
        free_pages = w.free_pages - 1;
      });
  sys_page_map = map_page;
  sys_page_unmap = λ envid va w. back (val 0) w;
  sys_exofork = λ w. back (val 1) w;
  sys_env_set_status = λ envid status w. back (val 0) w;
  sys_env_set_pgfault_upcall = λ envid upcall w. back (val 0) w;
  copy_page = λ to from w. w;
  set_thisenv = λ w. w;
  thisenv_upcall = λ w. 0;
  handler = λ w. 0;
  set_handler = λ h w. w;
}

page_of : (pn : ℕ) → pn * pg_size / pg_size ≡ pn
page_of pn = omega arith

into_stack :
    (w : Pair)
    → w.free_pages ≡ 1
    → world_calls.sys_page_alloc 1 (exception_page * pg_size) 7 w
      ≡ back (val 0) (record w {
        child = put w.child (exception_page * pg_size / pg_size) (pg_size + 7);
        free_pages = w.free_pages - 1;
      })
into_stack w room = rw room refl

-- The mapping into the child, and into the caller, for permissions that need no completion.
into_child :
    (pn perm : ℕ) (w : Pair)
    → Plain perm
    → map_page 0 (pn * pg_size) 1 (pn * pg_size) perm w
      ≡ back (val 0) (record w {
        child = put w.child (pn * pg_size / pg_size) (remap (w.own (pn * pg_size / pg_size)) perm);
      })
into_child pn perm w (small, (p, (u, no_w))) = ground arith

into_self :
    (pn perm : ℕ) (w : Pair)
    → Plain perm
    → map_page 0 (pn * pg_size) 0 (pn * pg_size) perm w
      ≡ back (val 0) (record w {
        own = put w.own (pn * pg_size / pg_size) (remap (w.own (pn * pg_size / pg_size)) perm);
      })
into_self pn perm w (small, (p, (u, no_w))) = ground arith

abbrev world_calls-Sharing : Sharing world_calls 1 (λ w. w.free_pages ≡ 1) (λ w. Unit)
world_calls-Sharing = record {
  child = λ w. w.child;
  to_child = λ pn perm w lt p plain room. (
    _,
    (
      into_child pn perm w plain,
      (room, (λ q. ap (λ k. put w.child k (remap (w.own k) perm) q) (page_of pn), (refl, refl))),
    ),
  );
  to_self = λ pn perm w lt p plain room. (
    _,
    (
      into_self pn perm w plain,
      (room, (λ q. ap (λ k. put w.own k (remap (w.own k) perm) q) (page_of pn), (refl, refl))),
    ),
  );
  to_stack = λ w room. (_, (into_stack w room, (tt, (refl, (λ q ne. ground arith, refl)))));
  to_upcall = λ upcall w alive. (w, (refl, (tt, (refl, refl))));
  to_status = λ w alive. (w, (refl, (refl, refl)));
}

-- Page 5 is writeable.
abbrev before : Pair
before = record { own = λ q. 2 * pg_size + 7; child = λ q. 0; free_pages = 1 }

-- A write to the page 5 that is not copy-on-write.
pgfault-replaces_example :
    pgfault world_calls (5 * pg_size) 7 before
    ≡ replace_page world_calls (rounddown (5 * pg_size)) before
pgfault-replaces_example = pgfault-replaces world_calls (5 * pg_size) 7 before

-- A receiver that waits for the world to count down to 0.
abbrev try_slowly : ℕ → Back ℕ Ret
try_slowly zero = back (val 0) 0
try_slowly (suc w) = back (err ipc_not_recv) (suc w)

abbrev one_less : ℕ → Back ℕ (Unit {0})
one_less zero = back tt 0
one_less (suc w) = back tt w

abbrev slow_receiver : IpcCalls ℕ
slow_receiver = record {
  sys_ipc_recv = λ pg w. back (val 0) w;
  sys_ipc_try_send = λ to value pg perm w. try_slowly w;
  sys_yield = λ w. one_less w;
  env_ipc_from = λ w. 0;
  env_ipc_perm = λ w. 0;
  env_ipc_value = λ w. 0;
  env_type = λ w i. 0;
  env_id = λ w i. 0;
}

two_waits : Tries slow_receiver 4096 7 0xeec00000 0 2 2 (back true 0)
two_waits = not_yet 1 2 2 1 _ refl refl (not_yet 0 1 1 0 _ refl refl (taken 0 0 0 refl))

ipc_send-Tries_example : ipc_send slow_receiver 3 4096 7 0 0 2 ≡ back true 0
ipc_send-Tries_example =
    ipc_send-Tries slow_receiver 4096 7 0 0xeec00000 0 2 3 2 (back true 0) (inl (refl, refl))
      two_waits (omega arith)
