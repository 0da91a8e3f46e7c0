-- ===== src/Pit/Tests.antt =====
-- A run of pit.c.
use visual_os.Base.{◌%◌, ◌^◌, ◌/◌, ◌<◌, ◌≡◌, ◌⊎◌, [], refl, ltb, true, arith}
use visual_os.Pit.{Pit, pit_base_frequency, pit_set_frequency}
use visual_os.Pit.Divisor.{Sent, pit_set_frequency-Sent}

abbrev fresh : Pit
fresh = record { ticks_since_boot = 0; divisor = 65535; outputs = [] }

pit_set_frequency-Sent_example :
    Sent fresh (pit_set_frequency 100 fresh) (pit_base_frequency / 100 % 2 ^ 16)
    × (0 < pit_base_frequency / 100)
    × ((ltb 100 19 ≡ true) ⊎ (pit_base_frequency / 100 % 2 ^ 16 ≡ pit_base_frequency / 100))
pit_set_frequency-Sent_example = pit_set_frequency-Sent 100 fresh (omega arith) (omega arith)

-- The divisor for 18 ticks a second is 66287.
slow : (pit_set_frequency 18 fresh).divisor ≡ 751
unfolding pit_set_frequency
slow = refl
