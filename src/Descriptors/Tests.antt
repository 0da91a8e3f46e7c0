-- ===== src/Descriptors/Tests.antt =====
-- The tables of idt.c and gdt.c at some addresses.
use visual_os.Base.{ℕ, ◌≡◌, inr, refl, arith, some, none}
use visual_os.Descriptors.Keyboard.{keyboard_handler}
use visual_os.Scheduler.State.{TaskInitialState}
use visual_os.Scheduler.{new_node}
use visual_os.Descriptors.{IdtBlock, GdtBlock, no_entry, new_tss, gdt_init}
use visual_os.Descriptors.Segments.{HasSegments, tss_base, gdt_init-HasSegments}

abbrev blank_idt : IdtBlock
blank_idt = record { limit = 0; base = 0; idt = λ n. no_entry }

-- Every handler is at the same high address.
abbrev handlers : ℕ → ℕ
handlers n = 0xffffffff80123456

abbrev blank_gdt : GdtBlock
blank_gdt = record {
  size = 0;
  offset = 0;
  gdt = λ n. record {
    limit_low = 0;
    base_low = 0;
    base_mid = 0;
    access = 0;
    flags = 0;
    base_high = 0;
  };
  tss_descriptor = record {
    limit_low = 0;
    base_low = 0;
    base_mid = 0;
    access = 0;
    flags = 0;
    base_mid2 = 0;
    base_high = 0;
    reserved = 0;
  };
  tss = new_tss;
}

abbrev user_task : TaskInitialState
user_task = record {
  general = record {
    rax = 0;
    rbx = 0;
    rcx = 0;
    rdx = 0;
    rsi = 0;
    rdi = 0;
    rbp = 0;
    r8 = 0;
    r9 = 0;
    r10 = 0;
    r11 = 0;
    r12 = 0;
    r13 = 0;
    r14 = 0;
    r15 = 0;
  };
  entry = 0x400000;
  stack = 0x7fff0000;
  rpl = 3;
}

gdt_init-HasSegments_example :
    HasSegments
      (gdt_init 0x7000 0xffffffff80007100 blank_gdt)
      (new_node 5 1 user_task).context.context_frame
      3
    × (tss_base (gdt_init 0x7000 0xffffffff80007100 blank_gdt).tss_descriptor ≡ 0xffffffff80007100)
gdt_init-HasSegments_example =
    gdt_init-HasSegments 0x7000 0xffffffff80007100 blank_gdt 5 1 user_task (inr refl) (omega arith)

-- The keys 1, a and space, the first number behind the table, and the release of a key.
keys :
    (keyboard_handler 2 ≡ some 49)
    × (keyboard_handler 30 ≡ some 97)
    × (keyboard_handler 57 ≡ some 32)
    × (keyboard_handler 58 ≡ none)
    × (keyboard_handler 130 ≡ none)
unfolding keyboard_handler
keys = (refl, refl, refl, refl, refl)
