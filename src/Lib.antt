-- ===== src/Lib.antt =====
-- libpuppy and its protocol with a Topfield TF5000PVRt over USB, from the sources in the
-- repository's root.
--
-- The parts, from the wire up, with the file that models each:
-- Bytes (tf_bytes.c): integers in the device's byte order in a memory. A memory is a function
--   from addresses to bytes (Base/Memory), and a write gives a new memory.
-- Crc16 (crc16.c): the CRC of a packet, with its table; Crc16/Reference is the bit-by-bit CRC that it
--   is compared with.
-- Packet (usb_io.h, usb_io.c): command codes (Packet/Commands), the layout of a packet and of
--   struct typefile (Packet/Typefile), byte_swap, swap_in_packet, swap_out_packet, get_crc and
--   decode_error.
-- Usb (usb_io.c): usb_bulk_write and usb_bulk_read. The record Usb holds what the kernel will answer
--   to the ioctls of both endpoints, as two sequences that may be anything, and collects what the
--   device was sent. The end of a sequence is a failure.
-- Transport (usb_io.c): send_success, send_cancel, send_tf_packet and get_tf_packet.
-- Requests (usb_io.c): the send_cmd_* functions. A request is refused as too long, or is ready to be
--   sent, or overruns its local packet; the last is a result of its own, where C has no meaning.
-- Mjd (mjd.c): dates and time stamps. The double arithmetic is taken as exact fractions, since the
--   constants have at most four decimals; mktime and localtime are parameters.
-- Session (libpuppy.c): struct puppy, with the globals reply and packet, the result codes and the
--   lines printed.
-- Open (libpuppy.c): puppy_open and puppy_done; the answers of the system calls are a parameter.
-- Commands (libpuppy.c): the calls of one request and one reply (puppy_turbo, puppy_reset,
--   puppy_ready, puppy_cancel, puppy_hdd_size, puppy_hdd_del, puppy_hdd_rename, puppy_hdd_mkdir).
-- FileGet and FilePut (libpuppy.c): puppy_hdd_file_get and puppy_hdd_file_put as state machines. A
--   round of their loops is a function from a state to the next state or to a result code; the
--   answers of read and write on the local file are sequences that may be anything.
-- Buffer (buffer.c) and Listing (libpuppy.c): the growing array, decode_dir and puppy_hdd_dir;
--   Listing/Pages and Listing/Whole run a listing of several packets.
-- Stream (libpuppy.c): a file as it crosses the wire, in START, DATA and END packets.
-- Session/Served is a device that answers SUCCESS. With it, FilePut/Rounds, Whole, Copy and Call run an
--   upload from its request to its END packet, and FilePut/Return the download of what was sent.
-- Statistics (libpuppy.c): progressStats and finalStats, as functions of the time; puppy.c has them
--   once more (PuppyProgram/Statistics). A double that is printed is a fraction; the quotient of doubles that is
--   converted to int is a parameter.
-- Descriptor (usb_io.c): read_device_descriptor, read_config_descriptor, discard_extra_desc_data and
--   the printing of both descriptors, on a file whose answers to read may be anything.
-- PacketTrace (usb_io.c): print_packet, as the characters that it prints.
-- Tools (tools.c): convert_slashes.
-- PuppyGet (puppy-get.c): the download tool. The local files are a function from names to contents.
-- PuppyDir (puppy-dir.c): the listing tool, with the orders that it sorts by.
-- PuppyProgram (puppy.c): the command line (PuppyProgram), its commands (Transfers, Download and
--   Directory, with Quote), findToppy (Search) and main (Main).
-- Base has what these share: tests, lists, bits, memories and integers. Tests has concrete runs.
--
-- The calls go through the state: a command sends with Requests and Transport, which take the answers
-- of the writing side from Usb, and receives with get_tf_packet, which takes those of the reading
-- side and writes the global reply.
--
-- The loops of the bulk transfers recurse on the answers. Those of FileGet, FilePut, Listing and
-- PuppyProgram run on fuel, one more than there are answers to read: each round that goes on reads one
-- at least. The doubling in Buffer runs on one more than the elements in use, since each step adds one
-- at least.
--
-- Not modelled: the trace output, the calls of print_packet, progressStats and finalStats in the
-- loops, the digits of printed fractions, the format of other printed lines and usb_ch9.h, a copied
-- kernel header. Library calls of the programs (getopt, fnmatch, stat, qsort, atoi, sscanf) are
-- parameters or stand for what they read, and so are the answers of the kernel. Memory is taken to be
-- granted wherever it is asked for, and int not to overflow in buffer.c.
pub mod Base
pub mod Bytes
pub mod Crc16
pub mod Packet
pub mod Usb
pub mod Transport
pub mod Requests
pub mod Mjd
pub mod Session
pub mod Commands
pub mod FileGet
pub mod FilePut
pub mod Buffer
pub mod Listing
pub mod Open
pub mod Stream
pub mod Statistics
pub mod PacketTrace
pub mod Descriptor
pub mod Tools
pub mod PuppyGet
pub mod PuppyProgram
pub mod PuppyDir
pub mod Tests
