-- ===== src/Interrupts/Init/Table.antt =====
-- kernel/interrupts/init.cpp: the descriptor table after `initialize`.
use tinylittleos.Common.{
  ℕ, zero, suc, ◌+◌, ◌*◌, ◌^◌, ◌<◌, ◌≡◌, refl, sym, subst, ap, ◌∙◌, Bool-cases, true, false, inl,
  inr, ◌&&◌, ◌||◌, ◌==◌, ltb, leb, if◌then◌else◌, arith,
}
use tinylittleos.Interrupts.Init.{
  IdtEntry, no_entry, gate, set_entry, Idt, load_entries, initialize,
}

-- Where the processor goes on.
abbrev pub target : IdtEntry → ℕ
target e = e.isr_high * 2 ^ 16 + e.isr_low

within_suc :
    (g : ℕ → IdtEntry) (idt : Idt) (i left n : ℕ)
    → (if leb (i + 1) n && ltb n (i + 1 + left) then g n else (if n == i then g i else idt n))
      ≡ (if leb i n && ltb n (i + suc left) then g n else idt n)
within_suc g idt i left n = elim (Bool-cases (n == i)) [
  | inl e ↦
      let low : leb (i + 1) n ≡ false = ground arith in
      let here : (leb i n && ltb n (i + suc left)) ≡ true = ground arith in
      let same : i ≡ n = ground arith in rw (low, here, e) (ap g same)
  | inr e ↦
      let both : (leb (i + 1) n && ltb n (i + 1 + left)) ≡ (leb i n && ltb n (i + suc left)) =
        ground arith in
      rw (both, e) refl
]

load_entries_lem :
    (left i : ℕ) (isr : ℕ → ℕ) (idt : Idt) (n : ℕ)
    → load_entries left i isr idt n
      ≡ (if leb i n && ltb n (i + left) then gate 0x8e (isr n) else idt n)
unfolding load_entries
load_entries_lem zero i isr idt n = ground arith
load_entries_lem (suc left) i isr idt n =
    load_entries_lem left (i + 1) isr (set_entry i (gate 0x8e (isr i)) idt) n
    ∙ within_suc (λ m. gate 0x8e (isr m)) idt i left n

-- The entry of a stub, or none.
abbrev pub Describes : (isr : ℕ → ℕ) → (n : ℕ) → IdtEntry → Type 0
Describes isr n e =
    if ltb n 48 || n == 128
    then (target e ≡ isr n)
      × (e.isr_low < 2 ^ 16)
      × (e.isr_high < 2 ^ 16)
      × (e.kernel_cs ≡ 8)
      × (e.attributes ≡ (if n == 128 then 0xee else 0x8e))
    else e ≡ no_entry

gate-target : (attributes address : ℕ) → target (gate attributes address) ≡ address
gate-target attributes address = omega arith

gate-Describes :
    (isr : ℕ → ℕ) (n attributes address : ℕ)
    → address ≡ isr n
    → address < 2 ^ 32
    → attributes ≡ (if n == 128 then 0xee else 0x8e)
    → (ltb n 48 || n == 128) ≡ true
    → Describes isr n (gate attributes address)
gate-Describes isr n attributes address e fits kind present =
    rw present (gate-target attributes address ∙ e, omega arith, omega arith, refl, kind)

-- After `initialize` the entries below 48 and 128 lead to their stubs, in the segment of the kernel,
-- and only 128 is open to user programs; all other entries are zero.
pub initialize-Describes :
    (isr : ℕ → ℕ) (n : ℕ) → isr n < 2 ^ 32 → Describes isr n ((initialize isr).idt_arr n)
unfolding initialize
initialize-Describes isr n fits = elim (Bool-cases (n == 128)) [
  | inl e ↦
      let same : isr 128 ≡ isr n = ground (arith, ap isr {x = 128} {y = n}) in
      let entry : (initialize isr).idt_arr n ≡ gate 0xee (isr 128) = rw e refl in
      subst (Describes isr n) (sym entry)
        (gate-Describes isr n 0xee (isr 128) same (omega arith) (rw e refl) (ground arith))
  | inr e ↦
      let loaded : (initialize isr).idt_arr n
          ≡ (if leb 0 n && ltb n 48 then gate 0x8e (isr n) else no_entry) =
        rw e (load_entries_lem 48 0 isr (λ m. no_entry) n) in
      elim (Bool-cases (ltb n 48)) [
        | inl lt ↦
            let entry : (initialize isr).idt_arr n ≡ gate 0x8e (isr n) =
              loaded ∙ (let here : (leb 0 n && ltb n 48) ≡ true = ground arith in rw here refl) in
            subst (Describes isr n) (sym entry)
              (gate-Describes isr n 0x8e (isr n) refl fits (rw e refl) (ground arith))
        | inr ge ↦
            let out : (ltb n 48 || n == 128) ≡ false = ground arith in
            rw out
              (loaded ∙ (let off : (leb 0 n && ltb n 48) ≡ false = ground arith in rw off refl))
      ]
]
