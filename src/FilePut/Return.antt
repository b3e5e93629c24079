-- ===== src/FilePut/Return.antt =====
-- A file that `puppy_hdd_file_put` has sent, and that `puppy_hdd_file_get` receives again.
use libpuppy.Base.{
  subst, ℕ, suc, ◌+◌, ◌≤◌, ◌<◌, ◌≡◌, ◌^◌, sym, ap, ◌∙◌, arith, List, [], ◌∷◌, ◌++◌, Option, some,
  none, length, length-append, map, All, flatten,
}
use libpuppy.Base.Memory.{Memory, IsBytes}
use libpuppy.Mjd.{TfDatetime}
use libpuppy.Requests.{failed, count, CString, ready, hdd_file_send_request}
use libpuppy.Requests.Layout.{AreBytes}
use libpuppy.Requests.Fields.{file_send_request-IsReady}
use libpuppy.Session.{Puppy, Code, done}
use libpuppy.Session.Served.{IsServed, IsSuccess, frame_bytes}
use libpuppy.Stream.{delivered}
use libpuppy.Transport.RoundTrip.{frame_answers}
use libpuppy.Transport.Receive.{reads-send_tf_packet}
use libpuppy.FileGet.{Download, new_download, get_loop, get_fuel, puppy_hdd_file_get, direction_get}
use libpuppy.FilePut.{neg_eproto, Upload, start_packet, end_packet, puppy_hdd_file_put, examined}
use libpuppy.FilePut.RoundTrip.{Sent, pieces, get_loop-uploaded}
use libpuppy.FilePut.Whole.{frames}
use libpuppy.FilePut.Copy.{IsReadable}
use libpuppy.FilePut.Call.{puppy_hdd_file_put-IsStored, send_cmd-ready}
use libpuppy.Usb.Read.{length-delivery}
use libpuppy.Session.Served.{requested}

-- A puppy whose device delivers packets that an upload sent.
abbrev pub replay : Puppy → Memory → List Sent → Memory → Puppy
replay q first xs last = record q {
  usb = record (q.usb) {
    reads = frame_answers first ++ delivered (pieces xs) (frame_answers last);
  };
}

-- The fields of the descriptor that an upload sends fit.
pub record IsDescribing (stamp : TfDatetime) (name : CString) : Type 0 where
  pub bytes : AreBytes name
  pub short : length name ≤ 94
  pub mjd : stamp.mjd < 2 ^ 16
  pub hour : stamp.hour < 256
  pub minute : stamp.minute < 256
  pub second : stamp.second < 256

-- Each packet is an answer at least.
length-delivered :
    (xs : List Sent) (more : List (Option (List ℕ)))
    → length xs + length more ≤ length (delivered (pieces xs) more)
length-delivered [] more = omega arith
length-delivered (x ∷ xs) more = omega (
  arith,
  length-delivery _ _ _ _,
  length-append (frame_answers _) (delivered (pieces xs) more),
  length-delivered xs more,
)

-- The call after its request was sent.
get_after :
    (q : Puppy) (req m : Memory) (disk : List (Option ℕ)) (path : CString) (d : Download)
    → hdd_file_send_request req direction_get path ≡ ready m
    → get_loop (get_fuel (requested q m)) (new_download (requested q m) disk) ≡ some (done, d)
    → puppy_hdd_file_get q req none disk path ≡ some (done, d)
unfolding puppy_hdd_file_get
get_after q req m disk path d built result =
    ap
      (λ sent. elim sent as (λ _. Option (Code × Download)) [
        | none ↦ none
        | some (failed, u) ↦ some (neg_eproto, new_download (record q { usb = u }) disk)
        | some (count n, u) ↦
            let p : Puppy = record q { usb = u } in get_loop (get_fuel p) (new_download p disk)
      ])
      (send_cmd-ready q.usb req m direction_get path built)
    ∙ result

-- A file of one to 2 ^ 64 - 1 bytes whose reads each give a byte at least is sent by
-- `puppy_hdd_file_put`, under a name of at most 94 bytes and with a time stamp whose fields fit,
-- to a device that takes 16 pages for each packet and answers SUCCESS at least three times more
-- often than the file has bytes. A device that delivers the START, DATA and END packets of that
-- transfer, which are what the first device was sent behind the request, is asked for the file by
-- `puppy_hdd_file_get`, with a path of fewer than 65523 bytes, and the disk takes every write.
-- Both calls return 0, and the file that is written is the one that was read, with its size and
-- its time stamp.
pub puppy_hdd_file_get-puppy_hdd_file_put :
    (ok req get_req : Memory) (m : ℕ) (p q : Puppy) (stamp : TfDatetime) (path src_path : CString)
    (content ks disk : List ℕ)
    → IsSuccess ok
    → IsServed ok m (suc m) p
    → IsBytes req
    → IsDescribing stamp path
    → IsReadable content ks
    → length content + 3 ≤ m
    → IsBytes get_req
    → AreBytes src_path
    → length src_path < 65523
    → All (λ k. 65535 ≤ k) disk
    → length content ≤ length disk
    → (request : Memory) × (first : Upload) × (xs : List Sent) × (ending last : Upload)
      × (d : Download) × (puppy_hdd_file_put p req
            (examined (length content) stamp)
            content
            (map some ks)
            path
          ≡ some (done, some last, last.puppy))
      × (flatten last.puppy.usb.sent
          ≡ flatten p.usb.sent
            ++ (frame_bytes request
                ++ (frame_bytes (start_packet first)
                    ++ (frames xs ++ frame_bytes (end_packet ending)))))
      × (puppy_hdd_file_get
            (replay q (start_packet first) xs (end_packet ending))
            get_req
            none
            (map some disk)
            src_path
          ≡ some (done, d))
      × (d.file ≡ content)
      × (d.byte_count ≡ length content)
      × (d.stamp ≡ some stamp)
puppy_hdd_file_get-puppy_hdd_file_put ok req get_req m p q stamp path src_path content ks disk is_ok
      served memory described readable enough get_memory src_bytes src_short takes room =
    let s =
      puppy_hdd_file_put-IsStored ok req m p stamp path content ks is_ok served memory
        described.bytes (omega (arith, described.short)) readable enough in
    let r =
      file_send_request-IsReady get_req direction_get src_path get_memory src_bytes src_short in
    let source = replay q (start_packet s.first) s.packets (end_packet s.ending) in
    let closing = frame_answers (end_packet s.ending) in
    let reads : (requested source r.packet).usb.reads ≡ source.usb.reads =
      reads-send_tf_packet source.usb r.packet in
    let (d, result, file, size, time) =
      get_loop-uploaded (requested source r.packet) s.first s.ending s.packets disk
        (get_fuel (requested source r.packet))
        (record {
          memory = s.first_memory;
          small = subst (All (λ b. b < 256)) (sym s.described.2) described.bytes;
          short = omega (arith, ap length s.described.2, described.short);
          size = omega (arith, s.described.0, readable.few);
          mjd = omega (arith, ap (λ (t : TfDatetime). t.mjd) s.described.1, described.mjd);
          hour = omega (arith, ap (λ (t : TfDatetime). t.hour) s.described.1, described.hour);
          minute = omega (arith, ap (λ (t : TfDatetime). t.minute) s.described.1, described.minute);
          second = omega (arith, ap (λ (t : TfDatetime). t.second) s.described.1, described.second);
        })
        s.sent s.ending_memory takes (omega (arith, s.rounds))
        (omega (
          arith,
          ap length reads,
          length-append (frame_answers (start_packet s.first))
              (delivered (pieces s.packets) closing),
          length-delivery _ _ _ _,
          length-delivered s.packets closing,
          length-delivery _ _ _ _,
        ))
        reads in
    (
      s.request,
      s.first,
      s.packets,
      s.ending,
      s.last,
      d,
      s.result,
      s.wire,
      get_after source get_req r.packet (map some disk) src_path d r.built result,
      file ∙ s.parts,
      size ∙ s.described.0,
      time ∙ ap some s.described.1,
    )
