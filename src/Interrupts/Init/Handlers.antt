-- ===== src/Interrupts/Init/Handlers.antt =====
-- kernel/interrupts/init.cpp and pic.cpp: the handlers that are registered, and their calls.
use tinylittleos.Common.{
  ℕ, ◌<◌, ◌≤◌, ◌≡◌, ◌≢◌, refl, sym, subst, ap, ◌∙◌, Bool-cases, true, false, inl, inr, ◌==◌, ltb,
  if◌then◌else◌, List, [], ◌∷◌, arith,
}
use tinylittleos.Common.Run.{Run, ok, fault, Fault, assert_failed, panicked, value_or, ◌>>=◌}
use tinylittleos.Interrupts.Init.{
  Interrupts, initialize, register_handler, internal_interrupt_handler,
}

-- Handlers that are registered one after the other.
unfoldable pub register_list : List (ℕ × ℕ) → Interrupts → Run Interrupts
register_list [] s = ok s
register_list ((n, handler) ∷ rest) s = do s' ← register_handler n handler s; register_list rest s'

abbrev pub Unregistered : Interrupts → Type 0
Unregistered s = (n : ℕ) → 48 ≤ n → s.interrupt_handler_table n ≡ 0

register_handler_lem :
    (n handler : ℕ) (s : Interrupts)
    → n < 48
    → register_handler n handler s
      ≡ ok (record s {
        interrupt_handler_table = λ m. if m == n then handler else s.interrupt_handler_table m;
      })
unfolding register_handler
register_handler_lem n handler s lt = let e : ltb n 48 ≡ true = ground arith in rw e refl

register_handler_fails :
    (n handler : ℕ) (s : Interrupts)
    → ltb n 48 ≡ false
    → register_handler n handler s ≡ fault assert_failed
unfolding register_handler
register_handler_fails n handler s ge = rw ge refl

fault-ne-ok : (e : Fault) (s : Interrupts) → fault e ≢ ok s
fault-ne-ok e s p = cc p

register_list-Unregistered :
    (handlers : List (ℕ × ℕ)) (s s' : Interrupts)
    → register_list handlers s ≡ ok s'
    → Unregistered s
    → Unregistered s'
unfolding register_list
register_list-Unregistered [] s s' e u = unfold value_or in subst Unregistered (ap (value_or s) e) u
register_list-Unregistered ((n, handler) ∷ rest) s s' e u = elim (Bool-cases (ltb n 48)) [
  | inl lt ↦
      let s1 = record s {
        interrupt_handler_table = λ m. if m == n then handler else s.interrupt_handler_table m;
      } in
      let first : register_list ((n, handler) ∷ rest) s ≡ register_list rest s1 =
        rw (register_handler_lem n handler s (ground arith)) refl in
      register_list-Unregistered rest s1 s' (sym first ∙ e) (λ m high. ground (arith, u m))
  | inr ge ↦
      let first : register_list ((n, handler) ∷ rest) s ≡ fault assert_failed =
        rw (register_handler_fails n handler s ge) refl in
      absurd (fault-ne-ok assert_failed s' (sym first ∙ e))
]

-- An interrupt from 48 on, as the system call 128, that happens after `initialize` and any
-- registrations that succeed, is not handled: the kernel panics.
pub internal_interrupt_handler-panics :
    (call : ℕ → Interrupts → Run Interrupts) (isr : ℕ → ℕ) (handlers : List (ℕ × ℕ))
    (s : Interrupts) (n : ℕ)
    → register_list handlers (initialize isr) ≡ ok s
    → 48 ≤ n
    → n < 256
    → internal_interrupt_handler call n s ≡ fault panicked
unfolding internal_interrupt_handler
internal_interrupt_handler-panics call isr handlers s n e high below =
    let none_ : s.interrupt_handler_table n ≡ 0 =
      register_list-Unregistered handlers (initialize isr) s e (λ m h. unfold initialize in refl) n
        high in
    let b : ltb n 256 ≡ true = ground arith in rw (b, none_) refl
