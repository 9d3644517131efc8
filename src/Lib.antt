-- ===== src/Lib.antt =====
-- Verification of the RTP transport, the recorder and parts of the RTSP server and utilities of libnx.
--
-- The program is a media library in C++. Its RTP part turns encoded frames into RTP packets and packets
-- into frames: a packetizer writes the packets of a frame into a frame buffer, a receiver parses each
-- datagram that arrives, checks its payload type, counts what was received and lost, and hands the
-- payload to a depacketizer or to the frame callback. RTSP sends packets over a TCP connection through a
-- queue that writes one entry at a time. The recorder collects frames in blocks (block builder), and
-- appends the blocks to segment files, each with an index of the blocks that hold key frames (segment
-- builder); a segment that was not closed is repaired from its blocks (segment repairer), and a reader
-- gives the frames back (segment reader); a scheduler says what each channel records at which hour. The
-- JPEG parser of the codecs serves the JPEG depacketizer, and the H.264 and H.265 parsers read the size
-- of the pictures from the parameter sets of a stream, which the NAL unit parser divides into units. Two
-- utilities of the core are here as well: the reader for Exp-Golomb codes and the timer wheel.
--
-- Files and code:
--   Rtp/Types.antt          nxnet/rtp/rtp_types.h, rtp_error.h: headers, statistics, error codes
--   Rtp/Packet.antt         nxnet/rtp/rtp_packet.cpp: parse, parse_header_and_payload
--   Rtp/Extension.antt      nxnet/rtp/rtp_header_extension.cpp: add, add_ntp64, serialized_size,
--                           serialize, parse_one_byte_extension, extract_ntp64
--   Rtp/FrameBuffer.antt    nxnet/rtp/rtp_frame_buffer.h: RtpFrameBuffer
--   Rtp/Packetizer.antt     the members and write_rtp_header that RtpH264Packetizer, RtpRawPacketizer
--                           and RtpG711Packetizer each declare alike
--   Rtp/Samples.antt        nxnet/rtp/rtp_raw_packetizer.cpp, rtp_g711_packetizer.cpp: packetize
--   Rtp/Depacketizer.antt   nxnet/rtp/rtp_depacketizer.h: the base class
--   Rtp/H264/Packetizer.antt    nxnet/rtp/rtp_h264_packetizer.cpp
--   Rtp/H264/Depacketizer.antt  nxnet/rtp/rtp_h264_depacketizer.cpp
--   Rtp/Receiver.antt       nxnet/rtp/rtp_receiver.cpp: handle_rtp_packet and the setters
--   Util/BitReader.antt     nxcore/util/bit_util.h
--   Util/TimerWheel.antt    nxcore/util/timer_wheel.cpp: add, cancel, size, fire_expired
--   Rtsp/WriteSerializer.antt   nxnet/rtsp/tcp_write_serializer.cpp: the queue of a TCP connection
--   Record/Types.antt       nxcore/record/record.h: entries, blocks, index entries, headers
--   Record/Layout.antt      the bytes of the packed structs of nxcore/record/record.h
--   Record/IndexFlags.antt  nxcore/record/record.h: namespace index_flags
--   Record/BlockBuilder.antt    nxcore/record/block_builder.cpp, block_builder_options.h
--   Record/FileStream.antt  nxcore/file/file_stream_posix.cpp, file_stream.h: files that are written
--   Record/SegmentBuilder.antt  nxcore/record/segment_builder.cpp
--   Record/SegmentRepairer.antt nxcore/record/segment_repairer.cpp
--   Record/SegmentReader.antt   nxcore/record/segment_reader.cpp
--   Record/Scheduler.antt   nxcore/record/record_scheduler.cpp, schedule.h, nxcore/util/enum_util.h
--   Rtp/H265/Depacketizer.antt  nxnet/rtp/rtp_h265_depacketizer.cpp
--   Rtp/Jpeg/Writing.antt   nxnet/rtp/rtp_jpeg_depacketizer.cpp: the segments of a JPEG file
--   Rtp/Jpeg/Depacketizer.antt  the rest of that file; Rtp/Jpeg/Tables has its quantization tables
--   Codec/Jpeg.antt         nxmedia/codec/jpeg_parser.cpp; Codec/Jpeg/Tables has its Huffman tables
--   Codec/NalUnits.antt     nxmedia/codec/nal_unit_parser.cpp, common.cpp
--   Codec/H264.antt         nxmedia/codec/h264_parser.cpp; Codec/Reading has its chains of reads
--   Codec/H265.antt         nxmedia/codec/h265_parser.cpp
--   Common.antt             shared names; Common/Tests, Common/Lists, Common/Bits: tests, list lemmas and
--                           bit operations
-- A child module holds theorems on its parent, and its concrete inputs are in a child Tests.
--
-- Conventions. An object is a record of its members and an operation takes and returns it. A byte is a
-- number, a span or vector a list of them. Integers of w bits are natural numbers, with `% 2 ^ w` where
-- the code wraps around. `Expected` is std::expected; `none` is undefined behaviour in the depacketizer
-- and the bit reader, and a loop that ran out of fuel or a division by 0 in the packetizers.
--
-- Fuel. The loops of the raw and G.711 packetizers take the size of the frame as fuel: each round sends
-- a byte at least where the payload limit is not 0. The loop of send_fu_a takes the size of the payload,
-- under the same condition on the fragment size. The NAL extraction takes the size of the frame, the
-- loop over an aggregate the size of its payload, the extension parser the size of its block; a round
-- of each takes a byte at least.
-- The scan of the repairer takes the size of the file; a block has 30 bytes at least. The
-- loop of the reader takes the size of the file and 2. The JPEG parser takes the size of its data, and
-- 64 rounds for the 63 AC coefficients of a block. The text of an attribute is its own fuel.
-- The loop over the NAL units takes the size of the stream; a unit is behind three bytes at least.
-- `read_ue` takes fuel for the 33 bits that its loop reads at most.
--
-- Systems. The strand of the TCP queue and the operating system under the segment builder are explicit:
-- events in any order, and a list of how the next calls end. `std::sort` is a parameter of the block
-- builder, whose result is a permutation of its argument. The structs are laid out for a little-endian
-- machine. A time stamp of the recorder is not negative. What the JSON library and the local time give
-- the scheduler are arguments of its operations.
--
-- Not modelled: the coroutines of the timer wheel, sockets and coroutines of the receiver, logging, the
-- asserts of debug builds, the reserving of capacity, the pool of frame buffers (a buffer from it is
-- empty), jitter_ms, which nothing writes. A frame is what its buffer holds when the frame callback is
-- called; the pass-through buffer is one for all calls, and what a consumer that keeps it reads of it
-- later is not described. The bit rate of a segment, the callback on_sync_performed, the checks of
-- time-outs and the pool of block buffers are left out as well. The rest of RTSP, SDP, HTTP, ONVIF,
-- authentication, media pipelines and the MP4 reader, which calls FFmpeg, are not part of the
-- development.
pub mod Codec
pub mod Common
pub mod Record
pub mod Rtp
pub mod Rtsp
pub mod Util
