-- ===== src/Descriptor.antt =====
-- The USB descriptors of usb_io.c: reading them from the device file, and printing them. The host is
-- little-endian, and memory for extra data is taken to be granted.
pub mod Reading
pub mod Printing
use libpuppy.Base.{
  ℕ, ◌+◌, ◌-◌, ◌*◌, ◌/◌, ◌%◌, min, ltb, ◌==◌, if◌then◌else◌, Option, none, some, List, [], ◌∷◌,
  length, take, drop,
}
use libpuppy.Base.Memory.{Memory, write_range, update}
use libpuppy.Bytes.{get_u16}

-- `rest` is what the file still holds, and `answers` are those of `read` to come: `none` is -1, and so is
-- the end of the sequence; `some k` gives `k` bytes, if as many were asked for and remain.
pub record DescriptorFile : Type 0 where
  pub rest : List ℕ
  pub answers : List (Option ℕ)

-- `read(fd, buffer, size)`
unfoldable pub read_from : List (Option ℕ) → ℕ → DescriptorFile → Option (List ℕ) × DescriptorFile
read_from [] size f = (none, f)
read_from (none ∷ answers) size f = (none, record f { answers = answers })
read_from (some k ∷ answers) size f =
    (some (take (min k size) f.rest), record { rest = drop (min k size) f.rest; answers = answers })

-- USB_DT_DEVICE_SIZE and USB_DT_CONFIG_SIZE
abbrev pub device_size : ℕ
device_size = 18

abbrev pub config_size : ℕ
config_size = 9

-- A field of 16 bits, as the host has it.
abbrev pub host_u16 : Memory → ℕ → ℕ
host_u16 m a = m a + m (a + 1) * 256

abbrev pub put_host_u16 : Memory → ℕ → ℕ → Memory
put_host_u16 m a n = update (update m a (n % 256)) (a + 1) (n / 256 % 256)

-- By what `read` gave: `none` is -1.
unfoldable pub took_device : Option (List ℕ) → Memory → Option ℕ × Memory
took_device none desc = (none, desc)
took_device (some bytes) desc =
    (if length bytes == device_size then some device_size else none, write_range desc 0 bytes)

unfoldable pub read_device_descriptor : DescriptorFile → Memory → Option ℕ × Memory × DescriptorFile
unfolding read_from took_device
read_device_descriptor f desc =
    let (r, f') = read_from f.answers device_size f in
    let (ret, desc') = took_device r desc in (ret, desc', f')

-- By what `read` gave of the extra data.
unfoldable pub took_extra : ℕ → Option (List ℕ) → Option ℕ
took_extra extra_size none = none
took_extra extra_size (some extra) = if length extra == extra_size then some 0 else none

unfoldable pub discard_extra_desc_data : DescriptorFile → Memory → ℕ → Option ℕ × DescriptorFile
unfolding read_from took_extra
discard_extra_desc_data f desc desc_size =
    let extra_size = desc 0 - desc_size in
    let (r, f') = read_from f.answers extra_size f in
    if ltb desc_size (desc 0) then (took_extra extra_size r, f') else (some 0, f)

-- `desc->wTotalLength = get_u16(&desc->wTotalLength);`
unfoldable pub convert_total_length : Memory → Memory
convert_total_length desc = put_host_u16 desc 2 (get_u16 desc 2)

-- By what `read` gave.
unfoldable pub took_config :
    Option (List ℕ) → DescriptorFile → Memory → Option ℕ × Memory × DescriptorFile
unfolding discard_extra_desc_data convert_total_length
took_config none f desc = (none, desc, f)
took_config (some bytes) f desc =
    let desc' = write_range desc 0 bytes in
    let converted = convert_total_length desc' in
    let (r, f') = discard_extra_desc_data f converted config_size in
    if length bytes == config_size then (r, converted, f') else (none, desc', f)

unfoldable pub read_config_descriptor : DescriptorFile → Memory → Option ℕ × Memory × DescriptorFile
unfolding read_from took_config
read_config_descriptor f desc =
    let (r, f') = read_from f.answers config_size f in took_config r f' desc

-- The fields that are printed, by their names.
pub data Field : Type 0 where
  b_length b_descriptor_type bcd_usb b_device_class b_device_sub_class b_device_protocol : Field
  b_max_packet_size0 id_vendor id_product bcd_device i_manufacturer i_product : Field
  i_serial_number b_num_configurations w_total_length b_num_interfaces : Field
  b_configuration_value i_configuration bm_attributes b_max_power : Field

-- A line with a field, in so many hexadecimal digits.
pub record FieldLine : Type 0 where
  pub field : Field
  pub digits : ℕ
  pub value : ℕ

abbrev byte_line : Field → Memory → ℕ → FieldLine
byte_line field desc a = record { field = field; digits = 2; value = desc a }

abbrev word_line : Field → Memory → ℕ → FieldLine
word_line field desc a = record { field = field; digits = 4; value = host_u16 desc a }

unfoldable pub print_device_descriptor : Memory → List FieldLine
print_device_descriptor desc =
    byte_line b_length desc 0
    ∷ byte_line b_descriptor_type desc 1
    ∷ word_line bcd_usb desc 2
    ∷ byte_line b_device_class desc 4
    ∷ byte_line b_device_sub_class desc 5
    ∷ byte_line b_device_protocol desc 6
    ∷ byte_line b_max_packet_size0 desc 7
    ∷ word_line id_vendor desc 8
    ∷ word_line id_product desc 10
    ∷ word_line bcd_device desc 12
    ∷ byte_line i_manufacturer desc 14
    ∷ byte_line i_product desc 15
    ∷ byte_line i_serial_number desc 16
    ∷ byte_line b_num_configurations desc 17
    ∷ []

unfoldable pub print_config_descriptor : Memory → List FieldLine
print_config_descriptor desc =
    byte_line b_length desc 0
    ∷ byte_line b_descriptor_type desc 1
    ∷ word_line w_total_length desc 2
    ∷ byte_line b_num_interfaces desc 4
    ∷ byte_line b_configuration_value desc 5
    ∷ byte_line i_configuration desc 6
    ∷ byte_line bm_attributes desc 7
    ∷ byte_line b_max_power desc 8
    ∷ []
