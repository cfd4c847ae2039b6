-- ===== src/Interrupts/Init/Tests.antt =====
-- kernel/interrupts/init.cpp and pic.cpp: two handlers, and stubs at the addresses 0xc0100000 + n.
use tinylittleos.Common.{ℕ, ◌+◌, ◌≡◌, refl, ◌==◌, if◌then◌else◌, List, [], ◌∷◌, arith}
use tinylittleos.Common.Run.{ok, fault, panicked, Returns}
use tinylittleos.Interrupts.Init.{
  Interrupts, initialize, register_handler, internal_interrupt_handler, init_pic,
  pic_interrupt_handler, timer, key,
}
use tinylittleos.Interrupts.Init.Table.{Describes, initialize-Describes}
use tinylittleos.Interrupts.Init.Handlers.{register_list, internal_interrupt_handler-panics}

abbrev stubs : ℕ → ℕ
stubs n = 0xc0100000 + n

initialize-Describes_example : Describes stubs 128 ((initialize stubs).idt_arr 128)
initialize-Describes_example = initialize-Describes stubs 128 (omega arith)

abbrev handlers : List (ℕ × ℕ)
handlers = (13, 1) ∷ (14, 2) ∷ []

abbrev registered : Interrupts
registered = record {
  idt_arr = (initialize stubs).idt_arr;
  interrupt_context_depth = 0;
  interrupt_handler_table = λ n. if n == 14 then 2 else if n == 13 then 1 else 0;
}

internal_interrupt_handler-panics_example :
    internal_interrupt_handler (λ handler s. ok s) 128 registered ≡ fault panicked
internal_interrupt_handler-panics_example =
    internal_interrupt_handler-panics (λ handler s. ok s) stubs handlers registered 128
      (unfold register_list register_handler initialize in refl) (omega arith) (omega arith)

page_fault :
    Returns
      (internal_interrupt_handler (λ handler s. ok s) 14 registered)
      λ s. s.interrupt_context_depth ≡ 0
unfolding internal_interrupt_handler
page_fault = (_, refl, refl)

-- The controller registers its handler 3 for the keyboard, and 0x30 stays free.
controller :
    Returns
      (init_pic 3 registered [])
      λ r. (r.0.interrupt_handler_table 0x21 ≡ 3) × (r.0.interrupt_handler_table 0x30 ≡ 0)
unfolding init_pic
controller = (_, refl, (refl, refl))

events :
    (pic_interrupt_handler 0x20 0 [] ≡ ok (timer, (0x20, 0x20) ∷ []))
    × (pic_interrupt_handler 0x21 30 [] ≡ ok (key 30, (0x20, 0x20) ∷ []))
    × (pic_interrupt_handler 0x22 0 [] ≡ fault panicked)
unfolding pic_interrupt_handler
events = (refl, refl, refl)
