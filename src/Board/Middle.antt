-- ===== src/Board/Middle.antt =====
-- The windows of the address space that VideoServer/src/hps.h gives to the parts of the processor
-- system, in the order of the file (i2c0 to noc_fw_ocram_scr).
use fagprojekt.Base.{List, [], ◌∷◌, ◌++◌}
use fagprojekt.Board.{Window, window}

abbrev pub i2c0 : List Window
i2c0 = window 4290781696 256 ∷ []

abbrev pub i2c1 : List Window
i2c1 = window 4290781952 256 ∷ []

abbrev pub i2c_emac_0_i2c : List Window
i2c_emac_0_i2c = window 4290782208 256 ∷ []

abbrev pub i2c_emac_1_i2c : List Window
i2c_emac_1_i2c = window 4290782464 256 ∷ []

abbrev pub i2c_emac_2_i2c : List Window
i2c_emac_2_i2c = window 4290782720 256 ∷ []

abbrev pub sptmr0 : List Window
sptmr0 = window 4290782976 256 ∷ []

abbrev pub sptmr1 : List Window
sptmr1 = window 4290783232 256 ∷ []

abbrev pub gpio0 : List Window
gpio0 = window 4290783488 128 ∷ []

abbrev pub gpio1 : List Window
gpio1 = window 4290783744 128 ∷ []

abbrev pub gpio_2_gpio : List Window
gpio_2_gpio = window 4290784000 128 ∷ []

abbrev pub io48_hmc_mmr : List Window
io48_hmc_mmr = window 4291796992 4096 ∷ []

abbrev pub ecc_hmc_ocp_to_sec_mgr_aesfifo : List Window
ecc_hmc_ocp_to_sec_mgr_aesfifo = window 4291801088 1280 ∷ window 4291813376 1024 ∷ []

abbrev pub fpgamgrdata : List Window
fpgamgrdata = window 4291814400 1024 ∷ []

abbrev pub tmr_sys_0_tmr : List Window
tmr_sys_0_tmr = window 4291821568 256 ∷ []

abbrev pub tmr_sys_1_tmr : List Window
tmr_sys_1_tmr = window 4291821824 256 ∷ []

abbrev pub l4wd0 : List Window
l4wd0 = window 4291822080 256 ∷ []

abbrev pub l4wd1 : List Window
l4wd1 = window 4291822336 256 ∷ []

abbrev pub fpgamgr : List Window
fpgamgr = window 4291833856 4096 ∷ []

abbrev pub clkmgr_clkmgr : List Window
clkmgr_clkmgr = window 4291837952 64 ∷ []

abbrev pub clkmgr_mainpll : List Window
clkmgr_mainpll = window 4291838016 128 ∷ []

abbrev pub clkmgr_perpll : List Window
clkmgr_perpll = window 4291838144 128 ∷ []

abbrev pub clkmgr_altera : List Window
clkmgr_altera = window 4291838272 64 ∷ []

abbrev pub rstmgr : List Window
rstmgr = window 4291842048 256 ∷ []

abbrev pub sysmgr : List Window
sysmgr = window 4291846144 512 ∷ []

abbrev pub sysmgr_rom : List Window
sysmgr_rom = window 4291846656 256 ∷ []

abbrev pub pinmux_shared_3v_io_grp : List Window
pinmux_shared_3v_io_grp = window 4291850240 512 ∷ []

abbrev pub pinmux_dctd_io_grp : List Window
pinmux_dctd_io_grp = window 4291850752 512 ∷ []

abbrev pub pinmux_fpga_interface_grp : List Window
pinmux_fpga_interface_grp = window 4291851264 256 ∷ []

abbrev pub noc_l4_priv_flt : List Window
noc_l4_priv_flt = window 4291891200 256 ∷ []

abbrev pub noc_mpu_m1toddrresp_main_rate : List Window
noc_mpu_m1toddrresp_main_rate = window 4291891456 128 ∷ []

abbrev pub noc_mpu_m0_rate_adresp_main_rate : List Window
noc_mpu_m0_rate_adresp_main_rate = window 4291891712 128 ∷ []

abbrev pub noc_mpu_l4_mp_rate_ad_main_rate : List Window
noc_mpu_l4_mp_rate_ad_main_rate = window 4291891968 128 ∷ []

abbrev pub noc_mpu_f2h_rate_ad_main_rate : List Window
noc_mpu_f2h_rate_ad_main_rate = window 4291892224 128 ∷ []

abbrev pub noc_mpu_l3toh2fresp_main_rate : List Window
noc_mpu_l3toh2fresp_main_rate = window 4291892480 128 ∷ []

abbrev pub noc_mpu_acp_rate_ad_main_rate : List Window
noc_mpu_acp_rate_ad_main_rate = window 4291892736 128 ∷ []

abbrev pub noc_mpu_ddr_t_prb : List Window
noc_mpu_ddr_t_prb = window 4291895296 1024 ∷ []

abbrev pub noc_mpu_ddr_t_sched : List Window
noc_mpu_ddr_t_sched = window 4291896320 128 ∷ []

abbrev pub noc_fw_l4_per_scr : List Window
noc_fw_l4_per_scr = window 4291899392 256 ∷ []

abbrev pub noc_fw_l4_sys_scr : List Window
noc_fw_l4_sys_scr = window 4291899648 256 ∷ []

abbrev pub noc_fw_ocram_scr : List Window
noc_fw_ocram_scr = window 4291899904 256 ∷ []

abbrev pub windows : List Window
windows =
    i2c0
    ++ (i2c1
        ++ (i2c_emac_0_i2c
            ++ (i2c_emac_1_i2c
                ++ (i2c_emac_2_i2c
                    ++ (sptmr0
                        ++ (sptmr1
                            ++ (gpio0
                                ++ (gpio1
                                    ++ (gpio_2_gpio
                                        ++ (io48_hmc_mmr
                                            ++ (ecc_hmc_ocp_to_sec_mgr_aesfifo
                                                ++ (fpgamgrdata
                                                    ++ (tmr_sys_0_tmr
                                                        ++ (tmr_sys_1_tmr
                                                            ++ (l4wd0
                                                            ++ (l4wd1
                                                            ++ (fpgamgr
                                                            ++ (clkmgr_clkmgr
                                                            ++ (clkmgr_mainpll
                                                            ++ (clkmgr_perpll
                                                            ++ (clkmgr_altera
                                                            ++ (rstmgr
                                                            ++ (sysmgr
                                                            ++ (sysmgr_rom
                                                            ++ (pinmux_shared_3v_io_grp
                                                            ++ (pinmux_dctd_io_grp
                                                            ++ (pinmux_fpga_interface_grp
                                                            ++ (noc_l4_priv_flt
                                                            ++ (noc_mpu_m1toddrresp_main_rate
                                                            ++ (noc_mpu_m0_rate_adresp_main_rate
                                                            ++ (noc_mpu_l4_mp_rate_ad_main_rate
                                                            ++ (noc_mpu_f2h_rate_ad_main_rate
                                                            ++ (noc_mpu_l3toh2fresp_main_rate
                                                            ++ (noc_mpu_acp_rate_ad_main_rate
                                                            ++ (noc_mpu_ddr_t_prb
                                                            ++ (noc_mpu_ddr_t_sched
                                                            ++ (noc_fw_l4_per_scr
                                                            ++ (noc_fw_l4_sys_scr
                                                            ++ (noc_fw_ocram_scr)))))))))))))))))))))))))))))))))))))))
