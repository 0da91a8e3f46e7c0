-- ===== src/Ioapic/Tests.antt =====
-- An entry of the keyboard's interrupt, written and read.
use visual_os.Base.{ℕ, ◌≤◌, ◌≡◌, ◌==◌, if◌then◌else◌, arith}
use visual_os.Ioapic.{
  Device, IoapicRedirectionEntry, ioapic_set_redirection_entry, ioapic_get_redirection_entry,
}
use visual_os.Ioapic.Setup.{MadtInterruptSourceOverride, isr_init, ioapic_set_from_isrs}
use visual_os.Ioapic.FromIsrs.{ReadsAs, set_from_isrs-read}
use visual_os.Ioapic.Entry.{IsEntry, get-set_redirection_entry}

abbrev blank : Device
blank = record { select = 0; registers = λ k. 0 }

abbrev keyboard : IoapicRedirectionEntry
keyboard = record {
  vector = 33;
  delivery_mode = 1;
  destination_mode = 0;
  delivery_status = 0;
  pin_polarity = 1;
  remote_irr = 0;
  trigger_mode = 1;
  mask = 0;
  destination = 200;
}

keyboard-IsEntry : IsEntry keyboard
keyboard-IsEntry = record {
  vector = omega arith;
  delivery_mode = omega arith;
  destination_mode = omega arith;
  delivery_status = omega arith;
  pin_polarity = omega arith;
  remote_irr = omega arith;
  trigger_mode = omega arith;
  mask = omega arith;
  destination = omega arith;
}

get-set_redirection_entry_example :
    (ioapic_get_redirection_entry (ioapic_set_redirection_entry blank 1 keyboard) 1).0
    ≡ (if 1 == 1 then keyboard else (ioapic_get_redirection_entry blank 1).0)
get-set_redirection_entry_example =
    get-set_redirection_entry blank 1 1 keyboard keyboard-IsEntry (omega arith) (omega arith)

-- The handlers of the kernel, and an override of the PIT's interrupt.
abbrev kernel_handlers : ℕ → ℕ
unfolding isr_init
kernel_handlers =
    isr_init
      (record {
        double_fault_handler = 1;
        general_protection_fault_handler = 2;
        paging_fault_handler = 3;
        pit_handler = 4;
        keyboard_handler = 5;
        spurious_interrupt_handler = 6;
        timer_handler = 7;
      })
      (λ n. 0)

abbrev pit_override : ℕ → MadtInterruptSourceOverride
pit_override i = record { bus = 0; source = 0; global_interrupt = 2; flags = 0 }

kernel_handlers-few : (n : ℕ) → 152 ≤ n → kernel_handlers n ≡ 0
unfolding isr_init
kernel_handlers-few n l = ground arith

set_from_isrs-read_example :
    ReadsAs pit_override 1 kernel_handlers 1
      (ioapic_get_redirection_entry blank 1).0
      (ioapic_get_redirection_entry (ioapic_set_from_isrs pit_override 1 kernel_handlers blank) 1).0
set_from_isrs-read_example =
    set_from_isrs-read pit_override 1 kernel_handlers kernel_handlers-few 1 blank (omega arith)
