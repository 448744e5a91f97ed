-- ===== src/Board/Upper.antt =====
-- The windows of the address space that VideoServer/src/hps.h gives to the parts of the processor
-- system, in the order of the file (noc_fw_ddr_mpu_f2sdr_ddr_scr to l2_regs_l2type_to_l2_regs_l2dbg).
use fagprojekt.Base.{List, [], ◌∷◌, ◌++◌}
use fagprojekt.Board.{Window, window}

abbrev pub noc_fw_ddr_mpu_f2sdr_ddr_scr : List Window
noc_fw_ddr_mpu_f2sdr_ddr_scr = window 4291900160 256 ∷ []

abbrev pub noc_fw_ddr_l3_scr : List Window
noc_fw_ddr_l3_scr = window 4291900416 256 ∷ []

abbrev pub noc_fw_h2f_scr : List Window
noc_fw_h2f_scr = window 4291900672 256 ∷ []

abbrev pub noc_mpu_prb_h2f_main_prb : List Window
noc_mpu_prb_h2f_main_prb = window 4291903488 1024 ∷ []

abbrev pub noc_mpu_prb_emacs_main_prb : List Window
noc_mpu_prb_emacs_main_prb = window 4291904512 1024 ∷ []

abbrev pub noc_mpu_prb_emacs_main_xactstatprofiler : List Window
noc_mpu_prb_emacs_main_xactstatprofiler = window 4291905536 128 ∷ []

abbrev pub noc_mpu_cs_obs_at_atbendpt : List Window
noc_mpu_cs_obs_at_atbendpt = window 4291905792 128 ∷ []

abbrev pub noc_mpu_cs_obs_at_errlog_0 : List Window
noc_mpu_cs_obs_at_errlog_0 = window 4291905920 128 ∷ []

abbrev pub noc_mpu_prb_mpu_main_prb : List Window
noc_mpu_prb_mpu_main_prb = window 4291907584 1024 ∷ []

abbrev pub noc_mpu_m0_main_qos : List Window
noc_mpu_m0_main_qos = window 4291911680 128 ∷ []

abbrev pub noc_mpu_m1_main_qos : List Window
noc_mpu_m1_main_qos = window 4291911808 128 ∷ []

abbrev pub noc_mpu_f2h_axi32_qos : List Window
noc_mpu_f2h_axi32_qos = window 4291911936 128 ∷ []

abbrev pub noc_mpu_f2h_axi64_qos : List Window
noc_mpu_f2h_axi64_qos = window 4291912064 128 ∷ []

abbrev pub noc_mpu_f2h_axi128_qos : List Window
noc_mpu_f2h_axi128_qos = window 4291912192 128 ∷ []

abbrev pub noc_mpu_dma_m0_qos : List Window
noc_mpu_dma_m0_qos = window 4291912320 128 ∷ []

abbrev pub noc_mpu_emac0_m_qos : List Window
noc_mpu_emac0_m_qos = window 4291912448 128 ∷ []

abbrev pub noc_mpu_emac1_m_qos : List Window
noc_mpu_emac1_m_qos = window 4291912576 128 ∷ []

abbrev pub noc_mpu_emac2_m_qos : List Window
noc_mpu_emac2_m_qos = window 4291912704 128 ∷ []

abbrev pub noc_mpu_usb0_m_main_qos : List Window
noc_mpu_usb0_m_main_qos = window 4291912832 128 ∷ []

abbrev pub noc_mpu_usb1_m_main_qos : List Window
noc_mpu_usb1_m_main_qos = window 4291912960 128 ∷ []

abbrev pub noc_mpu_nand_m_main_qos : List Window
noc_mpu_nand_m_main_qos = window 4291913088 128 ∷ []

abbrev pub noc_mpu_sdmmc_m_main_qos : List Window
noc_mpu_sdmmc_m_main_qos = window 4291913216 128 ∷ []

abbrev pub noc_mpu_f2sdr0_axi32_qos : List Window
noc_mpu_f2sdr0_axi32_qos = window 4291913344 128 ∷ []

abbrev pub noc_mpu_f2sdr0_axi64_qos : List Window
noc_mpu_f2sdr0_axi64_qos = window 4291913472 128 ∷ []

abbrev pub noc_mpu_f2sdr0_axi128_qos : List Window
noc_mpu_f2sdr0_axi128_qos = window 4291913600 128 ∷ []

abbrev pub noc_mpu_f2sdr1_axi32_qos : List Window
noc_mpu_f2sdr1_axi32_qos = window 4291913728 128 ∷ []

abbrev pub noc_mpu_f2sdr1_axi64_qos : List Window
noc_mpu_f2sdr1_axi64_qos = window 4291913856 128 ∷ []

abbrev pub noc_mpu_f2sdr2_axi32_qos : List Window
noc_mpu_f2sdr2_axi32_qos = window 4291913984 128 ∷ []

abbrev pub noc_mpu_f2sdr2_axi64_qos : List Window
noc_mpu_f2sdr2_axi64_qos = window 4291914112 128 ∷ []

abbrev pub noc_mpu_f2sdr2_axi128_qos : List Window
noc_mpu_f2sdr2_axi128_qos = window 4291915776 128 ∷ []

abbrev pub noc_mpu_emac0_m_xactstatflt_to_dma_sctl : List Window
noc_mpu_emac0_m_xactstatflt_to_dma_sctl =
    window 4291915904 128
    ∷ window 4292476928 96
    ∷ window 4292477184 64
    ∷ window 4292477952 256
    ∷ window 4292480256 16
    ∷ window 4292480512 32
    ∷ window 4292480992 32
    ∷ window 4292481024 96
    ∷ []

abbrev pub dma_schannelstat_to_dma_scompid : List Window
dma_schannelstat_to_dma_scompid =
    window 4292481280 64
    ∷ window 4292482048 256
    ∷ window 4292484352 16
    ∷ window 4292484608 32
    ∷ window 4292485088 32
    ∷ []

abbrev pub spis0 : List Window
spis0 = window 4292485120 128 ∷ []

abbrev pub spis1 : List Window
spis1 = window 4292489216 128 ∷ []

abbrev pub spim0 : List Window
spim0 = window 4292493312 256 ∷ []

abbrev pub spim1_to_mpu_regs_mpuintrdist : List Window
spim1_to_mpu_regs_mpuintrdist =
    window 4292497408 256
    ∷ window 4292870144 262144
    ∷ window 4294705152 131072
    ∷ window 4294950912 256
    ∷ window 4294951168 256
    ∷ window 4294951424 256
    ∷ window 4294952448 256
    ∷ window 4294955008 4096
    ∷ []

abbrev pub l2_regs_l2type_to_l2_regs_l2dbg : List Window
l2_regs_l2type_to_l2_regs_l2dbg =
    window 4294963200 256
    ∷ window 4294963456 256
    ∷ window 4294963712 256
    ∷ window 4294964992 256
    ∷ window 4294965504 256
    ∷ window 4294966272 256
    ∷ window 4294967040 256
    ∷ []

abbrev pub windows : List Window
windows =
    noc_fw_ddr_mpu_f2sdr_ddr_scr
    ++ (noc_fw_ddr_l3_scr
        ++ (noc_fw_h2f_scr
            ++ (noc_mpu_prb_h2f_main_prb
                ++ (noc_mpu_prb_emacs_main_prb
                    ++ (noc_mpu_prb_emacs_main_xactstatprofiler
                        ++ (noc_mpu_cs_obs_at_atbendpt
                            ++ (noc_mpu_cs_obs_at_errlog_0
                                ++ (noc_mpu_prb_mpu_main_prb
                                    ++ (noc_mpu_m0_main_qos
                                        ++ (noc_mpu_m1_main_qos
                                            ++ (noc_mpu_f2h_axi32_qos
                                                ++ (noc_mpu_f2h_axi64_qos
                                                    ++ (noc_mpu_f2h_axi128_qos
                                                        ++ (noc_mpu_dma_m0_qos
                                                            ++ (noc_mpu_emac0_m_qos
                                                            ++ (noc_mpu_emac1_m_qos
                                                            ++ (noc_mpu_emac2_m_qos
                                                            ++ (noc_mpu_usb0_m_main_qos
                                                            ++ (noc_mpu_usb1_m_main_qos
                                                            ++ (noc_mpu_nand_m_main_qos
                                                            ++ (noc_mpu_sdmmc_m_main_qos
                                                            ++ (noc_mpu_f2sdr0_axi32_qos
                                                            ++ (noc_mpu_f2sdr0_axi64_qos
                                                            ++ (noc_mpu_f2sdr0_axi128_qos
                                                            ++ (noc_mpu_f2sdr1_axi32_qos
                                                            ++ (noc_mpu_f2sdr1_axi64_qos
                                                            ++ (noc_mpu_f2sdr2_axi32_qos
                                                            ++ (noc_mpu_f2sdr2_axi64_qos
                                                            ++ (noc_mpu_f2sdr2_axi128_qos
                                                            ++ (noc_mpu_emac0_m_xactstatflt_to_dma_sctl
                                                            ++ (dma_schannelstat_to_dma_scompid
                                                            ++ (spis0
                                                            ++ (spis1
                                                            ++ (spim0
                                                            ++ (spim1_to_mpu_regs_mpuintrdist
                                                            ++ (l2_regs_l2type_to_l2_regs_l2dbg))))))))))))))))))))))))))))))))))))
