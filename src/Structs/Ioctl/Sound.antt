-- ===== src/Structs/Ioctl/Sound.antt =====
-- Ioctl requests of sound devices and of the vfat file system in proj/sparc-linux/syscall_defs.h.
use Prim.Native.String.{String}
use sparcy.Base.{ℕ, List, [], ◌∷◌}
use sparcy.Structs.{int32}
use sparcy.Structs.Ioctl.{target_io, target_ior, target_ioru, target_iowr}

abbrev pub dsp_requests : List (String × ℕ)
dsp_requests =
    ("SNDCTL_COPR_HALT", target_iowr b'C' 7 int32)
    ∷ ("SNDCTL_COPR_LOAD", 0xcfb04301)
    ∷ ("SNDCTL_COPR_RCODE", 0xc0144303)
    ∷ ("SNDCTL_COPR_RCVMSG", 0x8fa44309)
    ∷ ("SNDCTL_COPR_RDATA", 0xc0144302)
    ∷ ("SNDCTL_COPR_RESET", 0x00004300)
    ∷ ("SNDCTL_COPR_RUN", 0xc0144306)
    ∷ ("SNDCTL_COPR_SENDMSG", 0xcfa44308)
    ∷ ("SNDCTL_COPR_WCODE", 0x40144305)
    ∷ ("SNDCTL_COPR_WDATA", 0x40144304)
    ∷ ("SNDCTL_DSP_RESET", target_io b'P' 0)
    ∷ ("SNDCTL_DSP_SYNC", target_io b'P' 1)
    ∷ ("SNDCTL_DSP_SPEED", target_iowr b'P' 2 int32)
    ∷ ("SNDCTL_DSP_STEREO", target_iowr b'P' 3 int32)
    ∷ ("SNDCTL_DSP_GETBLKSIZE", target_iowr b'P' 4 int32)
    ∷ ("SNDCTL_DSP_SETFMT", target_iowr b'P' 5 int32)
    ∷ ("SNDCTL_DSP_CHANNELS", target_iowr b'P' 6 int32)
    ∷ ("SOUND_PCM_WRITE_FILTER", target_iowr b'P' 7 int32)
    ∷ ("SNDCTL_DSP_POST", target_io b'P' 8)
    ∷ ("SNDCTL_DSP_SUBDIVIDE", target_iowr b'P' 9 int32)
    ∷ ("SNDCTL_DSP_SETFRAGMENT", target_iowr b'P' 10 int32)
    ∷ ("SNDCTL_DSP_GETFMTS", target_ior b'P' 11 int32)
    ∷ ("SNDCTL_DSP_GETOSPACE", target_ioru b'P' 12)
    ∷ ("SNDCTL_DSP_GETISPACE", target_ioru b'P' 13)
    ∷ ("SNDCTL_DSP_GETCAPS", target_ior b'P' 15 int32)
    ∷ ("SNDCTL_DSP_GETTRIGGER", target_ior b'P' 16 int32)
    ∷ ("SNDCTL_DSP_GETIPTR", target_ioru b'P' 17)
    ∷ ("SNDCTL_DSP_GETOPTR", target_ioru b'P' 18)
    ∷ ("SNDCTL_DSP_MAPINBUF", target_ioru b'P' 19)
    ∷ ("SNDCTL_DSP_MAPOUTBUF", target_ioru b'P' 20)
    ∷ []

abbrev pub sequencer_requests : List (String × ℕ)
sequencer_requests =
    ("SNDCTL_DSP_NONBLOCK", 0x0000500e)
    ∷ ("SNDCTL_DSP_SAMPLESIZE", 0xc0045005)
    ∷ ("SNDCTL_DSP_SETDUPLEX", 0x00005016)
    ∷ ("SNDCTL_DSP_SETSYNCRO", 0x00005015)
    ∷ ("SNDCTL_DSP_SETTRIGGER", 0x40045010)
    ∷ ("SNDCTL_FM_4OP_ENABLE", 0x4004510f)
    ∷ ("SNDCTL_FM_LOAD_INSTR", 0x40285107)
    ∷ ("SNDCTL_MIDI_INFO", 0xc074510c)
    ∷ ("SNDCTL_MIDI_MPUCMD", 0xc0216d02)
    ∷ ("SNDCTL_MIDI_MPUMODE", 0xc0046d01)
    ∷ ("SNDCTL_MIDI_PRETIME", 0xc0046d00)
    ∷ ("SNDCTL_PMGR_ACCESS", 0xcfb85110)
    ∷ ("SNDCTL_PMGR_IFACE", 0xcfb85001)
    ∷ ("SNDCTL_SEQ_CTRLRATE", 0xc0045103)
    ∷ ("SNDCTL_SEQ_GETINCOUNT", 0x80045105)
    ∷ ("SNDCTL_SEQ_GETOUTCOUNT", 0x80045104)
    ∷ ("SNDCTL_SEQ_NRMIDIS", 0x8004510b)
    ∷ ("SNDCTL_SEQ_NRSYNTHS", 0x8004510a)
    ∷ ("SNDCTL_SEQ_OUTOFBAND", 0x40085112)
    ∷ ("SNDCTL_SEQ_PANIC", 0x00005111)
    ∷ ("SNDCTL_SEQ_PERCMODE", 0x40045106)
    ∷ ("SNDCTL_SEQ_RESET", 0x00005100)
    ∷ ("SNDCTL_SEQ_RESETSAMPLES", 0x40045109)
    ∷ ("SNDCTL_SEQ_SYNC", 0x00005101)
    ∷ ("SNDCTL_SEQ_TESTMIDI", 0x40045108)
    ∷ ("SNDCTL_SEQ_THRESHOLD", 0x4004510d)
    ∷ ("SNDCTL_SEQ_TRESHOLD", 0x4004510d)
    ∷ ("SNDCTL_SYNTH_INFO", 0xc08c5102)
    ∷ ("SNDCTL_SYNTH_MEMAVL", 0xc004510e)
    ∷ ("SNDCTL_TMR_CONTINUE", 0x00005404)
    ∷ ("SNDCTL_TMR_METRONOME", 0x40045407)
    ∷ ("SNDCTL_TMR_SELECT", 0x40045408)
    ∷ ("SNDCTL_TMR_SOURCE", 0xc0045406)
    ∷ ("SNDCTL_TMR_START", 0x00005402)
    ∷ ("SNDCTL_TMR_STOP", 0x00005403)
    ∷ ("SNDCTL_TMR_TEMPO", 0xc0045405)
    ∷ ("SNDCTL_TMR_TIMEBASE", 0xc0045401)
    ∷ []

abbrev pub mixer_requests : List (String × ℕ)
mixer_requests =
    ("SOUND_PCM_READ_RATE", 0x80045002)
    ∷ ("SOUND_PCM_READ_CHANNELS", 0x80045006)
    ∷ ("SOUND_PCM_READ_BITS", 0x80045005)
    ∷ ("SOUND_PCM_READ_FILTER", 0x80045007)
    ∷ ("SOUND_MIXER_ACCESS", 0xc0804d66)
    ∷ ("SOUND_MIXER_PRIVATE1", target_iowr b'M' 111 int32)
    ∷ ("SOUND_MIXER_PRIVATE2", target_iowr b'M' 112 int32)
    ∷ ("SOUND_MIXER_PRIVATE3", target_iowr b'M' 113 int32)
    ∷ ("SOUND_MIXER_PRIVATE4", target_iowr b'M' 114 int32)
    ∷ ("SOUND_MIXER_PRIVATE5", target_iowr b'M' 115 int32)
    ∷ []

abbrev pub vfat_requests : List (String × ℕ)
vfat_requests =
    ("VFAT_IOCTL_READDIR_BOTH", target_ioru b'r' 1)
    ∷ ("VFAT_IOCTL_READDIR_SHORT", target_ioru b'r' 2)
    ∷ []
