-- ===== src/Tests/Output.antt =====
-- What is printed of concrete packets, descriptors and transfers.
use libpuppy.Base.{
  if◌then◌else◌, ◌==◌, ltb, none, suc, ℕ, ◌-◌, ◌*◌, ◌/◌, ◌^◌, ◌≤◌, ◌<◌, ◌≡◌, ◌⊎◌, ◌↔◌, refl, arith,
  false, List, [], ◌∷◌, ◌++◌, some, take,
}
use libpuppy.Base.Memory.{read_range}
use libpuppy.Statistics.{Quotient, Progress, progress_stats, line, undefined}
use libpuppy.Statistics.Estimate.{
  IsExact, IsClock, progress_stats-estimate, progress_stats-Undefined,
}
use libpuppy.Descriptor.{
  DescriptorFile, read_device_descriptor, read_config_descriptor, print_device_descriptor,
  print_config_descriptor, read_from, took_config, took_device, took_extra, discard_extra_desc_data,
  convert_total_length,
}
use libpuppy.Descriptor.Printing.{
  told, exchanged, read_device_descriptor-printed, read_config_descriptor-exchanged,
}
use libpuppy.PacketTrace.{print_packet}
use libpuppy.PacketTrace.Dump.{read_dump, skipping, traced, read_dump-print_packet}
use libpuppy.Bytes.{get_u16}
use libpuppy.Tests.Codec.{blank, blank-IsBytes}

-- A machine that divides exactly.
abbrev exact_quotient : Quotient
exact_quotient n d = if d == 0 then none else if ltb (n / d) (2 ^ 31) then some (n / d) else none

exact_quotient-IsExact : IsExact exact_quotient
exact_quotient-IsExact = record {
  finite = λ n d small moving low few. ground arith;
  large = λ n d small moving low many. ground arith;
  by_zero = λ n. refl;
}

-- 60 of 100 bytes after 20 seconds: 13 seconds are left at 3 bytes a second.
progress_stats-estimate_example :
    (shown : Progress) × (progress_stats exact_quotient false 30 100 60 10 ≡ line shown)
    × IsClock shown.elapsed 20
    × (eta : ℕ) × IsClock shown.remaining eta
    × (eta * 3 ≤ 40)
    × (40 < suc eta * 3)
progress_stats-estimate_example =
    progress_stats-estimate exact_quotient exact_quotient-IsExact 30 10 100 60 (omega arith)
      (omega arith) (omega arith) (omega arith) (omega arith) (omega arith)

-- A transfer that stalled.
progress_stats-Undefined_example :
    (progress_stats exact_quotient false 30 100 7 10 ≡ undefined)
    ↔ ((7 < 20) ⊎ (2 ^ 31 * (7 / 20) ≤ 100 - 7))
progress_stats-Undefined_example =
    progress_stats-Undefined exact_quotient exact_quotient-IsExact 30 10 100 7 (omega arith)
      (omega arith) (omega arith) (omega arith)

-- A configuration descriptor of 11 bytes, and an interface descriptor behind it.
abbrev configuration : DescriptorFile
configuration = record {
  rest = 11 ∷ 2 ∷ 32 ∷ 0 ∷ 1 ∷ 1 ∷ 0 ∷ 192 ∷ 1 ∷ 7 ∷ 7 ∷ 9 ∷ 4 ∷ [];
  answers = some 9 ∷ some 2 ∷ [];
}

configuration-read : (read_config_descriptor configuration blank).0 ≡ some 0
unfolding read_config_descriptor read_from took_config took_extra discard_extra_desc_data
    convert_total_length get_u16
configuration-read = refl

read_config_descriptor-exchanged_example :
    told (print_config_descriptor (read_config_descriptor configuration blank).1)
    ≡ exchanged (take 9 configuration.rest)
read_config_descriptor-exchanged_example =
    read_config_descriptor-exchanged configuration blank 0 blank-IsBytes (ground arith)
      configuration-read

-- The device descriptor of a Topfield TF5000PVRt, and some bytes behind it.
abbrev device : DescriptorFile
device = record {
  rest =
      18 ∷ 1 ∷ 0 ∷ 2 ∷ 0 ∷ 0 ∷ 0 ∷ 64 ∷ 0xdb ∷ 0x11 ∷ 0 ∷ 0x10 ∷ 1 ∷ 0 ∷ 1 ∷ 2 ∷ 0 ∷ 1 ∷ 9 ∷ 2 ∷ [];
  answers = some 18 ∷ [];
}

device-read : (read_device_descriptor device blank).0 ≡ some 18
unfolding read_device_descriptor read_from took_device
device-read = refl

read_device_descriptor-printed_example :
    let desc' = (read_device_descriptor device blank).1 in
    let f' = (read_device_descriptor device blank).2 in
    (◌≡◌ {A = ℕ} 18 18) × (told (print_device_descriptor desc') ++ f'.rest ≡ device.rest)
read_device_descriptor-printed_example =
    read_device_descriptor-printed device blank 18 blank-IsBytes (ground arith) device-read

-- " IN<"
abbrev incoming : List ℕ
incoming = 32 ∷ 73 ∷ 78 ∷ 60 ∷ []

read_dump-print_packet_example :
    take 8 (read_dump 4 (skipping 4) (print_packet 1 blank incoming)) ≡ read_range blank 0 8
unfolding traced
read_dump-print_packet_example = read_dump-print_packet 1 blank incoming blank-IsBytes
