-- ===== src/Lib.antt =====
-- The core of the media player dtplayer_c, modelled from its C source.
--
-- A demuxer thread reads a stream, through a cache for slow ones, and hands packets to the host.
-- The host puts them into the port's queues, one for audio, video and subtitles each; the decoders
-- take them out, and tell the host the time of what they play. The host keeps a system clock from
-- these times, and starts and stops the port and the three outputs together. Events between the
-- parts go through services.
--
-- Which file models which part:
--
--   Base, Ring, Heap     what the parts share: lists and C integers, a block of bytes with wrap-around,
--                        singly linked nodes at addresses
--   Media                include/dtp_av.h: packets and media types
--   Buffer               dtutils/dt_buffer.c: a byte ring between a decoder and its output
--   DataQueue            dtutils/dt_queue.c: a doubly linked queue of pointers between a decoder and its
--                        output
--   PacketQueue          dtport/dt_packet_queue.c: a linked queue of packets
--   Port                 dtport/dtport.c: the three queues, their limits and the choice of a queue
--   Cache                dtstream/stream/stream_cache.c, the ring: create_cache to cache_reset
--   Stream               the same file, the thread that fills the ring and its handshakes
--   Stream.Wrapper       the same file, stream_cache_open to stream_cache_close
--   Stream.File          dtstream/stream/stream_file.c: a local file
--   Demuxer              dtdemux/dtdemuxer.c: the choice of a demuxer by the probes
--   Aac                  dtdemux/demuxer/demuxer_aac.c: frames of AAC audio behind ADTS headers
--   Aac.File             the demuxer on a local file
--   Event                dtutils/dt_event.c: services, and the transport of events to them
--   Host                 dthost/dthost.c and dthost/dthost_api.c, with dtport_init and dtport_stop of
--                        dtport/dtport_api.c
--   Host.Clock           the presentation times and the system clock
--   Host.Control         start, pause, resume, stop, init, resize
--   Host.State           frames through the port, and the state that the player asks for
--   Host.Commands,
--   Host.Api             the calls with a context that may be NULL, and the commands
--
--   Player               dtplayer/dtplayer.h and dtplayer/dtplayer_host.c: the player's state, its calls
--   Player.Io            dtplayer/dtplayer_io.c: the thread from the demuxer to the host
--   Player.Time,
--   Player.Update        dtplayer/dtplayer_update.c: the position and the state
--   Player.Control       dtplayer/dtplayer.c: start, pause, resume, seek, stop, resize
--   Player.Network,
--   Player.Loop          dtplayer/dtplayer.c: the thread of events and the check for buffering
--   Player.Init          dtplayer/dtplayer.c: the choices of player_init; dtplayer_seekto of
--                        dtplayer/dtplayer_api.c
--   Video                dtvideo/dtvideo_output.c: the thread that shows the pictures
--   Video.Control        dtvideo/dtvideo.c: start, pause, resume, the times, the reads from the queue
--   Audio                dtaudio/dtaudio_output.c: the thread that plays the samples; the part of
--                        dtaudio/dtaudio_decoder.c that fills the buffer between the two
--   Audio.Control        dtaudio/dtaudio.c: start, pause, resume and the time
--
-- How the model corresponds to the code. A struct is a record with the code's fields, a function
-- has the code's name, and the branches of a long function are helpers beside it. A function that
-- changes a struct returns it. Where a function may fault its result is an Option: `none` is an
-- access outside a block, through NULL or to a freed address. The nodes of the queues are on an
-- explicit heap from addresses to cells. malloc is a parameter that may return NULL; where it does
-- not, the address is one that is not in use. The calls into dtaudio, dtvideo and dtsub, and the
-- callback to the player, are the fields of the record Host.Outputs, on a state that the model
-- does not look into. In the same way Stream.Source is the real stream behind a cache,
-- Stream.File.Os the system's files, Aac.Input the stream under a demuxer, Audio.Device the device
-- of the audio output, Player.Io.Ends the demuxer and the host as the io thread sees them,
-- Player.Parts the host and the demuxer as the player sees them, and Video.Screen the host's clock
-- and the device as the video output sees them: in the code they are calls through function
-- pointers, or calls of parts that another module models in detail.
--
-- Numbers. Offsets, levels and counts, which the code keeps non-negative, are natural numbers. The
-- times of the host are int64_t: every difference, sum and product wraps around at 64 bits, and a
-- theorem about the clock says which values must be in range. C `int` counters are not bounded.
-- The float product in create_cache is a parameter, and so are the float times of the AAC demuxer
-- (Aac.Float).
--
-- Loops. packet_queue_flush and queue_flush run on fuel: the number of nodes and one more, which
-- the theorems on them show to be enough. The calls that wait for a thread run on fuel, one round
-- of that thread between two looks at its status: two looks are enough for a thread that is in its
-- loop, as the theorems on them show. The loops of the AAC probe run on fuel that is one more than
-- the number of bytes, and a call for the next AAC frame on fuel that the caller gives: two more
-- than the bytes between two frames is enough, as the theorems on them show.
--
-- Concurrency. Every operation of the packet queue, the byte buffer and the cache holds the mutex
-- of its struct from beginning to end, so that a call is one step. A round of a thread's loop is
-- one step too, and the theorems on threads hold for any sequence of such steps. What a thread and
-- a caller do at once within a round is not modelled.
--
-- Not modelled: the threads that decode, but for the part named above; demuxer_open's loop that
-- fills the probe buffer; the network streams, the other demuxers, and the opening of the AAC
-- demuxer with its estimate of the duration; the subtitle output; the FFmpeg, SDL and ALSA calls;
-- the creation and removal of event services; player_prepare and the parameters that
-- player_host_init and host_init copy; the settings file, and logging.
pub mod Base
pub mod Ring
pub mod Buffer
pub mod Heap
pub mod Media
pub mod PacketQueue
pub mod Port
pub mod Cache
pub mod Host
pub mod Event
pub mod Stream
pub mod Player
pub mod Video
pub mod Aac
pub mod Audio
pub mod DataQueue
pub mod Demuxer
