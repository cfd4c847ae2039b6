-- ===== src/Interrupts/Init.antt =====
-- kernel/interrupts/init.cpp and pic.cpp: the descriptor table, the table of the handlers and the
-- dispatch of an interrupt. A handler is a number, 0 for `nullptr`; what the call of one does to the
-- depth of interrupts is a parameter. Writes to ports are a list, the last one first.
pub mod Table
pub mod Handlers
mod Tests
use tinylittleos.Common.{
  ℕ, zero, suc, ◌+◌, ◌-◌, ◌*◌, ◌/◌, ◌%◌, ◌^◌, Bool, not, ◌&&◌, ◌==◌, ltb, leb, if◌then◌else◌, List,
  [], ◌∷◌,
}
use tinylittleos.Common.Run.{Run, ok, fault, panicked, out_of_bounds, kassert, ◌>>=◌, ◌>>◌}

pub record IdtEntry : Type 0 where
  pub isr_low : ℕ
  pub kernel_cs : ℕ
  pub reserved : ℕ
  pub attributes : ℕ
  pub isr_high : ℕ

abbrev pub no_entry : IdtEntry
no_entry = record { isr_low = 0; kernel_cs = 0; reserved = 0; attributes = 0; isr_high = 0 }

abbrev pub gate : (attributes address : ℕ) → IdtEntry
gate attributes address = record {
  isr_low = address % 2 ^ 16;
  kernel_cs = 8;
  reserved = 0;
  attributes = attributes;
  isr_high = address / 2 ^ 16;
}

abbrev pub Idt : Type 0
Idt = ℕ → IdtEntry

abbrev pub set_entry : ℕ → IdtEntry → Idt → Idt
set_entry i e idt n = if n == i then e else idt n

-- The loop over the entries, with the addresses of the assembler's stubs.
unfoldable pub load_entries : (left i : ℕ) → (isr : ℕ → ℕ) → Idt → Idt
load_entries zero i isr idt = idt
load_entries (suc left) i isr idt =
    load_entries left (i + 1) isr (set_entry i (gate 0x8e (isr i)) idt)

pub record Interrupts : Type 0 where
  pub idt_arr : Idt
  pub interrupt_context_depth : ℕ
  pub interrupt_handler_table : ℕ → ℕ

unfoldable pub initialize : (isr : ℕ → ℕ) → Interrupts
unfolding load_entries
initialize isr = record {
  idt_arr = set_entry 128 (gate 0xee (isr 128)) (load_entries 48 0 isr (λ n. no_entry));
  interrupt_context_depth = 0;
  interrupt_handler_table = λ n. 0;
}

unfoldable pub register_handler : (interrupt handler : ℕ) → Interrupts → Run Interrupts
register_handler interrupt handler s = do
  kassert (ltb interrupt 48)
  ok (record s {
    interrupt_handler_table = λ n. if n == interrupt then handler else s.interrupt_handler_table n;
  })

-- The handlers are those that `call` runs.
unfoldable pub internal_interrupt_handler :
    (call : ℕ → Interrupts → Run Interrupts) → (interrupt_number : ℕ) → Interrupts → Run Interrupts
internal_interrupt_handler call n s = do
  let entered = record s { interrupt_context_depth = s.interrupt_context_depth + 1 }
  let handler = s.interrupt_handler_table n
  let handle = do
    s' ← call handler entered
    kassert (not (s'.interrupt_context_depth == 0))
    ok (record s' { interrupt_context_depth = s'.interrupt_context_depth - 1 })
  if not (ltb n 256) then fault out_of_bounds else if handler == 0 then fault panicked else handle

-- The loop of `init_pic`.
unfoldable pub register_all : (left i handler : ℕ) → Interrupts → Run Interrupts
unfolding register_handler
register_all zero i handler s = ok s
register_all (suc left) i handler s = do
  s' ← register_handler i handler s
  register_all left (i + 1) handler s'

abbrev pub Ports : Type 0
Ports = List (ℕ × ℕ)

unfoldable pub send_end_of_interrupt : (interrupt : ℕ) → Ports → Ports
send_end_of_interrupt interrupt out =
    let out' = if leb 8 interrupt then (0xa0, 0x20) ∷ out else out in (0x20, 0x20) ∷ out'

-- What the interrupt of the controller is for.
pub data Event : Type 0 where
  timer : Event
  key : (scan_code : ℕ) → Event

-- The events of `pic_interrupt_handler`, with the ports after it: the end of a timer interrupt is
-- sent before the time slice passes.
unfoldable pub pic_interrupt_handler :
    (interrupt_number scan_code : ℕ) → Ports → Run (Event × Ports)
unfolding send_end_of_interrupt
pic_interrupt_handler interrupt_number scan_code out =
    let num = (interrupt_number + 2 ^ 32 - 0x20) % 2 ^ 32 in
    if num == 0
    then ok (timer, send_end_of_interrupt num out)
    else if num == 1
    then ok (key scan_code, send_end_of_interrupt num out)
    else fault panicked

unfoldable pub init_pic : (handler : ℕ) → Interrupts → Ports → Run (Interrupts × Ports)
unfolding register_all
init_pic handler s out = do
  s' ← register_all 16 0x20 handler s
  let divisor = 1193180 / 1000
  let out' : Ports =
      (0x40, divisor / 2 ^ 8)
      ∷ (0x40, divisor % 2 ^ 8)
      ∷ (0x43, 52)
      ∷ (0xa1, 0xff)
      ∷ (0x21, 0xfc)
      ∷ (0xa1, 0x01)
      ∷ (0x21, 0x05)
      ∷ (0xa1, 0x02)
      ∷ (0x21, 0x04)
      ∷ (0xa1, 0x28)
      ∷ (0x21, 0x20)
      ∷ (0xa0, 0x11)
      ∷ (0x20, 0x11)
      ∷ out
  ok (s', out')
